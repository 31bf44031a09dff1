-- ===== src/Store/Sql/Effects.antt =====
-- When a call has had the effect of a write on the view of the tables.
use visus.Prelude.{◌≡◌, String, string_eq, nat_eq}
use visus.External.Sql.{Moment}
use visus.Store.Sql.Statements.{Tables}
use visus.Store.Sql.View.{Configuration, view, Write, effect}

-- Views are equal if they agree at every key.
pub record SameView (a b : Configuration) : Type 0 where
  pub collections : (k : String) → a.collections k ≡ b.collections k
  pub histograms : (k : String) → a.histograms k ≡ b.histograms k
  pub scans : (k : String) → a.scans k ≡ b.scans k
  pub nodes : (k : _) → a.nodes k ≡ b.nodes k

pub SameView-eq : (a b : Configuration) → SameView a b → a ≡ b
SameView-eq a b s = λ i. record {
  collections = λ k. s.collections k i;
  histograms = λ k. s.histograms k i;
  scans = λ k. s.scans k i;
  nodes = λ k. s.nodes k i;
}

-- A write had its effect, at some moment.
abbrev pub Does : Write → Tables → Tables → Type 0
Does w t u = (m : Moment) × (view u ≡ effect w m (view t))
