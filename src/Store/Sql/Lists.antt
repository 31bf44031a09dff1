-- ===== src/Store/Sql/Lists.antt =====
-- The methods of the store that read a list.
use visus.Prelude.{
  contains, Distinct, ◌||◌, false, sort, insert_sorted, All-map, ==_refl, ℕ, ◌+◌, ◌≡◌, refl, sym,
  subst, ◌∙◌, String, true, List, [], ◌∷◌, Option, none, some, ltb, All, IsSorted, IsOrder,
  sort-IsSorted, sort-perm, leb_trans, leb_total, arith, Bool-cases, inl, inr, nat_eq, nat_beq_iff,
  ◌==◌, All-sort,
}
use mathlib.Core.List.{Mem, mem-cons_self, mem-cons_of_mem}
use mathlib.Core.List.Perm
use visus.Result.{ok, lift, ◌>>=◌, >>=-eq-ok}
use visus.Dict.{Dict, keys, lookup, contains-keys}
use visus.External.Sql.{Moment, Connection, IsTransactional}
use visus.Store.Types.{NodeInfo}
use visus.Store.Sql.Statements.{
  Tables, NodeRow, updated_first, list_nodes, recent_nodes, five_minutes, is_recent, node_info,
}
use visus.Store.Sql.{read_rows, get_nodes, collected}
use visus.Store.Sql.Rows.{read_rows-eq-ok}

updated_first-IsOrder : IsOrder updated_first
updated_first-IsOrder = record {
  total = λ a b. leb_total b.updated a.updated;
  trans = λ a b c p q. leb_trans c.updated b.updated a.updated q p;
}

abbrev pub IsFresh : ℕ → NodeInfo → Type 0
IsFresh now n = ltb now (n.updated + five_minutes) ≡ true

recent_nodes-IsFresh : (now : ℕ) (d : Dict ℕ NodeRow) → All (IsFresh now) (recent_nodes now d)
unfolding recent_nodes
recent_nodes-IsFresh now [] = tt
recent_nodes-IsFresh now ((id, r) ∷ d) = elim (Bool-cases (is_recent now r)) [
  | inl p ↦ rw p (p, recent_nodes-IsFresh now d)
  | inr p ↦ rw p (recent_nodes-IsFresh now d)
]

-- A recent row that is found under its id is listed.
recent_nodes-complete :
    (now id : ℕ) (r : NodeRow) (d : Dict ℕ NodeRow)
    → lookup id d ≡ some r
    → is_recent now r ≡ true
    → Mem (node_info id r) (recent_nodes now d)
unfolding recent_nodes lookup
recent_nodes-complete now id r [] h k = cc
recent_nodes-complete now id r ((i, s) ∷ d) h k = elim (Bool-cases (i == id)) [
  | inl p ↦
      let q : i ≡ id = (nat_beq_iff i id).0 p in
      let z : s ≡ r = ground arith in rw (q, z, k) mem-cons_self
  | inr p ↦
      let ih = recent_nodes-complete now id r d (ground arith) k in
      elim (Bool-cases (is_recent now s)) [
        | inl q ↦ rw q (mem-cons_of_mem (node_info i s) ih)
        | inr q ↦ rw q ih
      ]
]

abbrev pub ids : List NodeInfo → List ℕ
ids [] = []
ids (n ∷ ns) = n.id ∷ ids ns

contains-ids-insert_sorted :
    (a : NodeInfo) (ns : List NodeInfo) (k : ℕ)
    → contains (ids (insert_sorted updated_first a ns)) k ≡ (a.id == k || contains (ids ns) k)
unfolding insert_sorted
contains-ids-insert_sorted a [] k = refl
contains-ids-insert_sorted a (n ∷ ns) k = ground (arith, contains-ids-insert_sorted a ns k)

contains-ids-sort :
    (ns : List NodeInfo) (k : ℕ) → contains (ids (sort updated_first ns)) k ≡ contains (ids ns) k
unfolding sort
contains-ids-sort [] k = refl
contains-ids-sort (n ∷ ns) k =
    ground (arith, contains-ids-sort ns k, contains-ids-insert_sorted n (sort updated_first ns) k)

ids-insert_sorted-Distinct :
    (a : NodeInfo) (ns : List NodeInfo)
    → contains (ids ns) a.id ≡ false
    → Distinct (ids ns)
    → Distinct (ids (insert_sorted updated_first a ns))
unfolding insert_sorted
ids-insert_sorted-Distinct a [] h d = (refl, tt)
ids-insert_sorted-Distinct a (n ∷ ns) h d = ground (
  arith,
  ids-insert_sorted-Distinct a ns,
  contains-ids-insert_sorted a ns n.id,
  nat_eq.same_iff n.id a.id,
  nat_eq.same_iff a.id n.id,
)

ids-sort-Distinct :
    (ns : List NodeInfo) → Distinct (ids ns) → Distinct (ids (sort updated_first ns))
unfolding sort
ids-sort-Distinct [] d = tt
ids-sort-Distinct (n ∷ ns) d =
    ids-insert_sorted-Distinct n (sort updated_first ns) (contains-ids-sort ns n.id ∙ d.0)
      (ids-sort-Distinct ns d.1)

-- Ids of recent rows are keys of the table.
recent_nodes-keys :
    (now k : ℕ) (d : Dict ℕ NodeRow)
    → contains (keys d) k ≡ false
    → contains (ids (recent_nodes now d)) k ≡ false
unfolding recent_nodes
recent_nodes-keys now k [] h = refl
recent_nodes-keys now k ((i, r) ∷ d) h = ground (arith, recent_nodes-keys now k d)

recent_nodes-Distinct :
    (now : ℕ) (d : Dict ℕ NodeRow) → Distinct (keys d) → Distinct (ids (recent_nodes now d))
unfolding recent_nodes
recent_nodes-Distinct now [] h = tt
recent_nodes-Distinct now ((i, r) ∷ d) h = elim (Bool-cases (is_recent now r)) [
  | inl p ↦ rw p (recent_nodes-keys now i d h.0, recent_nodes-Distinct now d h.1)
  | inr p ↦ rw p (recent_nodes-Distinct now d h.1)
]

-- A node is a row of the table, under its id.
abbrev pub IsRow : Dict ℕ NodeRow → NodeInfo → Type 0
IsRow d n = (r : NodeRow) × (lookup n.id d ≡ some r) × (node_info n.id r ≡ n)

IsRow-later :
    (i : ℕ) (s : NodeRow) (d : Dict ℕ NodeRow) (n : NodeInfo)
    → contains (keys d) i ≡ false
    → IsRow d n
    → IsRow ((i, s) ∷ d) n
unfolding lookup
IsRow-later i s d n h (r, e, q) =
    (r, ground (arith, e, contains-keys i d, nat_eq.same_iff i n.id), q)

recent_nodes-IsRow :
    (now : ℕ) (d : Dict ℕ NodeRow) → Distinct (keys d) → All (IsRow d) (recent_nodes now d)
unfolding recent_nodes lookup
recent_nodes-IsRow now [] h = tt
recent_nodes-IsRow now ((i, r) ∷ d) h =
    let rest =
      All-map (IsRow d) (IsRow ((i, r) ∷ d)) (recent_nodes now d) (λ n q. IsRow-later i r d n h.0 q)
        (recent_nodes-IsRow now d h.1) in
    elim (Bool-cases (is_recent now r)) [
      | inl p ↦ rw p ((r, rw (==_refl i) refl, refl), rest)
      | inr p ↦ rw p rest
    ]

-- Nodes with a heartbeat less than five minutes old, the latest first, and all those of the table; they
-- are rows of the table, and none is twice there.
pub record ListsRecent (now : ℕ) (d : Dict ℕ NodeRow) (ns : List NodeInfo) : Type 0 where
  pub sorted : IsSorted updated_first ns
  pub fresh : All (IsFresh now) ns
  pub rows : All (IsRow d) ns
  pub once : Distinct (ids ns)
  pub complete :
      (id : ℕ) (r : NodeRow)
      → lookup id d ≡ some r
      → is_recent now r ≡ true
      → Mem (node_info id r) ns

list_nodes-ListsRecent :
    (m : Moment) (t : Tables) → Distinct (keys t.nodes) → ListsRecent m.now t.nodes (list_nodes m t)
unfolding list_nodes
list_nodes-ListsRecent m t h =
    let rows = recent_nodes m.now t.nodes in
    record {
      sorted = sort-IsSorted updated_first rows updated_first-IsOrder;
      fresh = All-sort updated_first (IsFresh m.now) rows (recent_nodes-IsFresh m.now t.nodes);
      rows = All-sort updated_first (IsRow t.nodes) rows (recent_nodes-IsRow m.now t.nodes h);
      once = ids-sort-Distinct rows (recent_nodes-Distinct m.now t.nodes h);
      complete = λ id r h k.
          (Perm.mem_iff (sort-perm updated_first rows)).1
            (recent_nodes-complete m.now id r t.nodes h k);
    }

collected-eq-ok {ℓ} :
    {A : Type ℓ} (f : Option String) (x y : A) → collected f x ≡ ok y → (f ≡ none) × (x ≡ y)
collected-eq-ok none x y h = (refl, let z : x ≡ y = cc in z)
collected-eq-ok (some e) x y h = cc

module _ (d : Connection Tables) (laws : IsTransactional d) where
  pub get_nodes-ListsRecent :
      (c : d.Conn) (ns : List NodeInfo)
      → Distinct (keys (d.tables c).nodes)
      → (get_nodes d c).0 ≡ ok ns
      → (m : Moment) × ListsRecent m.now (d.tables c).nodes ns
  unfolding get_nodes
  get_nodes-ListsRecent c ns unique h =
      let (r, p, q) =
        >>=-eq-ok (d.query_ordered list_nodes)
          (λ r. lift (read_rows r.rows) >>= λ ns. lift (collected r.failure ns)) c h in
      let c1 = (d.query_ordered list_nodes c).1 in
      let all : ((lift (read_rows r.rows) >>= λ ns. lift (collected r.failure ns)) c1).0 ≡ ok ns =
        cc in
      let (xs, p', q') =
        >>=-eq-ok (lift (read_rows r.rows)) (λ ns. lift (collected r.failure ns)) c1 all in
      let last : collected r.failure xs ≡ ok ns = cc in
      let (whole, same) = collected-eq-ok r.failure xs ns last in
      let (m, found) =
        laws.ordered_finds list_nodes c r xs p (read_rows-eq-ok r.rows xs p') whole in
      (
        m,
        subst (ListsRecent m.now (d.tables c).nodes) (sym found ∙ same)
            (list_nodes-ListsRecent m (d.tables c) unique),
      )
