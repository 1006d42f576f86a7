-- ===== src/Tests/Memory.antt =====
-- A rule table, a store and Nomad variables that are functions of their keys, and that never fail.
use smuggle.Prelude.{
  ℕ, String, Bool, true, Option, none, some, List, [], ◌∷◌, ◌++◌, ◌≡◌, refl, ◌-◌, ◌&&◌, arith, All,
  ◌==◌, string_eq, list_eq, contains, if◌then◌else◌, Bool-cases, inl, inr, ap₂, ◌∙◌, subst, ==_refl,
  ==_eq, sym, ap, ◌<>◌,
}
use smuggle.Prelude.Error.{Error, Result, ok, err, panic, sentinel}
use smuggle.Subnet.{Subnet}
use smuggle.Store.{Store, IsLawful as IsLawfulStore}
use smuggle.Firewall.Interface.{IpTables, IsLawful, Specs, insert_at, erase, same_chain}
use smuggle.Nvar.Interface.{
  IsLawful as IsLawfulVariables, Variables, Items, Stub, variable_path_not_found,
}
use text.Mathlib.TextEquality.{eq_iff}

abbrev pub Table : Type 0
Table = String → String → Specs

abbrev pub at_chain : String → String → (Specs → Specs) → Table → Table
at_chain t c f s t' c' = if same_chain t c t' c' then f (s t' c') else s t' c'

abbrev pub memory_tables : IpTables
memory_tables = record {
  State = Table;
  list_chains = λ t s. (ok ("FORWARD" ∷ "POSTROUTING" ∷ "SMUGGLE-FORWARD" ∷ []), s);
  new_chain = λ t c s. (ok tt, s);
  exists = λ t c spec s. (ok (contains (s t c) spec), s);
  append = λ t c spec s. (ok tt, at_chain t c (λ l. l ++ (spec ∷ [])) s);
  insert = λ t c pos spec s. (ok tt, at_chain t c (insert_at (pos - 1) spec) s);
  delete = λ t c spec s. (ok tt, at_chain t c (erase spec) s);
  has_random_fully = true;
}

pub exists_at :
    (s : Table) (t c : String) (spec : List String) (b : Bool)
    → (memory_tables.exists t c spec s).0 ≡ ok b
    → b ≡ contains (s t c) spec
exists_at s t c spec b h = cc

abbrev pub memory_tables-IsLawful : IsLawful memory_tables
memory_tables-IsLawful = record {
  rules = λ s. s;
  rules-list_chains = λ t s t' c'. refl;
  rules-new_chain = λ t c s t' c'. refl;
  rules-exists = λ t c spec s t' c'. refl;
  exists_ok = λ t c spec s b h. exists_at s t c spec b h;
  rules-append = λ t c spec s t' c'. refl;
  rules-insert = λ t c pos spec s t' c'. refl;
  rules-delete = λ t c spec s t' c'. refl;
}

-- Addresses of package net are numbers here.
abbrev pub Shelf : Type 0
Shelf = String → String → Option (Subnet ℕ)

abbrev pub has_key : Subnet ℕ → String → String → Bool
has_key x network id = x.network_name == network && x.client_id == id

-- The entry of a key, where it is stored under its own key.
abbrev pub listed : Shelf → String → String → List (Subnet ℕ) → List (Subnet ℕ)
listed s n i rest = elim (s n i) [ none ↦ rest | some x ↦ if has_key x n i then x ∷ rest else rest ]

abbrev pub list_at : Shelf → String → List (Subnet ℕ)
list_at s n = listed s n "a" (listed s n "b" [])

abbrev pub memory_store : Store ℕ
memory_store = record {
  State = Shelf;
  list_networks = λ s. (ok [], s);
  list_subnets = λ n s. (ok (list_at s n), s);
  delete_subnet = λ n i s. (ok tt, λ n' i'. if n == n' && i == i' then none else s n' i');
  get_subnet = λ n i s. (ok (s n i), s);
  set_subnet = λ x s. (ok tt, λ n i. if has_key x n i then some x else s n i);
}

abbrev pub IsStored : Shelf → Subnet ℕ → Type 0
IsStored s x = s x.network_name x.client_id ≡ some x

keyed :
    (s : Shelf) (n i : String) (x : Subnet ℕ) → s n i ≡ some x → has_key x n i ≡ true → IsStored s x
keyed s n i x held key =
    let same_n : x.network_name ≡ n = ground (arith, eq_iff x.network_name n) in
    let same_i : x.client_id ≡ i = ground (arith, eq_iff x.client_id i) in
    ap₂ s same_n same_i ∙ held

listed_entry :
    (s : Shelf) (n i : String) (o : Option (Subnet ℕ)) (rest : List (Subnet ℕ))
    → s n i ≡ o
    → All (IsStored s) rest
    → All (IsStored s) (elim o [ none ↦ rest | some x ↦ if has_key x n i then x ∷ rest else rest ])
listed_entry s n i none rest held h = h
listed_entry s n i (some x) rest held h = elim (Bool-cases (has_key x n i)) [
  | inl key ↦ rw key (keyed s n i x held key, h)
  | inr other ↦ rw other h
]

list_at-IsStored : (s : Shelf) (n : String) → All (IsStored s) (list_at s n)
list_at-IsStored s n =
    listed_entry s n "a" (s n "a") (listed s n "b" []) refl
      (listed_entry s n "b" (s n "b") [] refl tt)

pub list_ok_at :
    (s : Shelf) (n : String) (l : List (Subnet ℕ))
    → (memory_store.list_subnets n s).0 ≡ ok l
    → All (IsStored s) l
list_ok_at s n l h =
    let same : list_at s n ≡ l = cc in subst (All (IsStored s)) same (list_at-IsStored s n)

pub own_key : (n i : String) → (n == n && i == i) ≡ true
own_key n i = ground (arith, ==_refl n, ==_refl i)

pub same_entry : (s : Shelf) (n i n' i' : String) → (n == n' && i == i') ≡ true → s n i ≡ s n' i'
same_entry s n i n' i' h =
    let same_n : n ≡ n' = ground (arith, eq_iff n n') in
    let same_i : i ≡ i' = ground (arith, eq_iff i i') in ap₂ s same_n same_i

abbrev pub memory_store-IsLawful : IsLawfulStore memory_store
memory_store-IsLawful = record {
  subnet = λ s. s;
  back = λ x. some x;
  back_stored = λ x s n i b h. refl;
  same_key = λ n i n' i'. n == n' && i == i';
  same_key_refl = own_key;
  same_key_subnet = λ n i n' i' s h. same_entry s n i n' i' h;
  subnet-set = λ x s n i. refl;
  subnet-delete = λ network id s n i. refl;
  subnet-list = λ network s n i. refl;
  subnet-list_networks = λ s n i. refl;
  subnet-get = λ network id s n i. refl;
  get_ok = λ network id s o h. cc h;
  list_ok = λ n s l h. list_ok_at s n l h;
}

-- Nomad variables: what each path holds. A list gives the one path of the tests, under its prefix.
abbrev pub Vault : Type 0
Vault = String → Option Items

abbrev pub read_entry : Option Items → Result Items
read_entry none = err (sentinel variable_path_not_found)
read_entry (some v) = ok v

abbrev pub listed_stubs : String → List Stub
listed_stubs prefix =
    if prefix == "p/blue" then record { path = "p/blue/a"; modify_index = 7 } ∷ [] else []

abbrev pub memory_variables : Variables
memory_variables = record {
  State = Vault;
  list = λ prefix wait s. (ok (listed_stubs prefix, 9), s);
  read = λ p s. (read_entry (s p), s);
  update = λ p v s. (ok tt, λ q. if p == q then some v else s q);
  delete = λ p s. (ok tt, λ q. if p == q then none else s q);
}

pub read_entry_ok : (o : Option Items) (v : Items) → read_entry o ≡ ok v → o ≡ some v
read_entry_ok none v h = cc
read_entry_ok (some w) v h = cc

pub read_entry_err : (o : Option Items) (e : Error) → read_entry o ≡ err e → o ≡ none
read_entry_err none e h = refl
read_entry_err (some w) e h = cc

pub read_entry_panic : (o : Option Items) (p : String) → ¬ (read_entry o ≡ panic p)
read_entry_panic none p h = cc
read_entry_panic (some w) p h = cc

abbrev pub IsUnder : String → Stub → Type 0
IsUnder prefix m = (rest : String) × (m.path ≡ prefix <> rest)

listed_stubs-IsUnder : (prefix : String) → All (IsUnder prefix) (listed_stubs prefix)
listed_stubs-IsUnder prefix = elim (Bool-cases (prefix == "p/blue")) [
  | inl here ↦ rw here (("/a", ap (λ p. p <> "/a") (sym (==_eq prefix "p/blue" here))), tt)
  | inr other ↦ rw other tt
]

pub list_ok-IsUnder :
    (prefix : String) (wait index : ℕ) (s : Vault) (ms : List Stub)
    → (memory_variables.list prefix wait s).0 ≡ ok (ms, index)
    → All (IsUnder prefix) ms
list_ok-IsUnder prefix wait index s ms h =
    let same : listed_stubs prefix ≡ ms = cc in
    subst (All (IsUnder prefix)) same (listed_stubs-IsUnder prefix)

abbrev pub memory_variables-IsLawful : IsLawfulVariables memory_variables
memory_variables-IsLawful = record {
  items = λ s. s;
  items-list = λ prefix wait s p. refl;
  items-read = λ path s p. refl;
  items-update = λ path v s p. refl;
  items-delete = λ path s p. refl;
  list_ok = λ prefix wait index s ms h. list_ok-IsUnder prefix wait index s ms h;
  read_ok = λ path s v h. read_entry_ok (s path) v h;
  read_err = λ path s e h _. read_entry_err (s path) e h;
  read_panic = λ path s p. read_entry_panic (s path) p;
}
