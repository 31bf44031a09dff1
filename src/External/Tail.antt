-- ===== src/External/Tail.antt =====
-- github.com/nxadm/tail: following a file. `Files` is the state of the files and of the goroutines
-- that follow them.
use visus.Prelude.{String, ◌≡◌, ◌≢◌, Bool, false, Option}
use visus.Result.{Op}

pub record Config : Type 0 where
  pub follow : Bool
  pub from_beginning : Bool
  pub poll : Bool

pub record Tailing : Type 1 where
  pub Files : Type 0
  pub Tail : Type 0
  pub tail_file : String → Config → Op Files Tail
  pub stop : Tail → Files → Option String × Files
  pub cleanup : Tail → Files → Files

-- What the documentation of tail says of these: `Stop` ends the following of a file and of no other,
-- and `Cleanup` only removes what is left of the watches.
pub record TailingLaws (d : Tailing) : Type 0 where
  pub following : d.Tail → d.Files → Bool
  pub stop_self : (t : d.Tail) (f : d.Files) → following t (d.stop t f).1 ≡ false
  pub stop_other : (i t : d.Tail) (f : d.Files) → i ≢ t → following i (d.stop t f).1 ≡ following i f
  pub cleanup_keeps : (i t : d.Tail) (f : d.Files) → following i (d.cleanup t f) ≡ following i f
