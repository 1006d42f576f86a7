-- ===== src/Tests/Watches.antt =====
-- Variables of one path that keep their indexes, and a watch of them.
use smuggle.Prelude.{
  ℕ, suc, ◌≢◌, ◌↔◌, String, Bool-cases, ◌&&◌, Option, none, some, List, [], ◌∷◌, ◌<>◌, ◌≡◌, inl,
  inr, refl, sym, ap, subst, arith, In, All, if◌then◌else◌, ◌==◌, ==_eq, string_eq,
}
use smuggle.Prelude.Error.{Result, ok, err, new_error}
use smuggle.Firewall.Interface.{is_ok}
use smuggle.Nvar.Interface.{Variables, Items, Stub, IsLawful}
use smuggle.Nvar.Watch.{watch_round, watch_listed, sort_stubs, CanRead}
use smuggle.Nvar.Loop.{
  IsIndexed, Changes, Loop, watch_subnets, run_round, stub, round, change, Reach, start, later,
}
use smuggle.Nvar.Loop.Delivery.{IsSent}
use smuggle.Nvar.Loop.Complete.{watch_subnets_complete}
use smuggle.Tests.Memory.{memory_store, read_entry, read_entry_ok, read_entry_err, read_entry_panic}
use smuggle.Prelude.State.{St}
use smuggle.Subnet.{Subnet}
use smuggle.Nvar.{set_subnet, list_subnets, read_subnets, parse_client_subnet_config}
use smuggle.Nvar.Listing.{IsUnder, list_subnets_iff}
use smuggle.Client.Discovery.{IsLearnt, subnet-IsLearnt}
use smuggle.Tests.Codecs.{json, raw, read_raw, raw_text, raw_read}
use smuggle.Tests.Entries.{mine, codec, paths, parse_ok}

-- What the path holds.
abbrev Cell : Type 0
Cell = Option Items

abbrev the_path : String
the_path = "p/blue/a"

abbrev at_path : Cell → String → Cell
at_path s p = if the_path == p then s else none

abbrev index : Cell → ℕ
index none = 1
index (some v) = 9

abbrev listed : Cell → List Stub
listed none = []
listed (some v) = stub the_path 7 ∷ []

-- Only the one prefix can be listed, and only the one path changed.
abbrev list_prefix : String → Cell → Result (List Stub × ℕ)
list_prefix prefix s =
    if prefix == "p/blue" then ok (listed s, index s) else err (new_error "not allowed")

abbrev put : String → Cell → Cell → Result (Unit {0}) × Cell
put p v s = if the_path == p then (ok tt, v) else (err (new_error "not allowed"), s)

abbrev cell_variables : Variables
cell_variables = record {
  State = Cell;
  list = λ prefix wait s. (list_prefix prefix s, s);
  read = λ p s. (read_entry (at_path s p), s);
  update = λ p v s. put p (some v) s;
  delete = λ p s. put p none s;
}

abbrev IsStoredBy : Cell → Cell → String → String → Type 0
IsStoredBy v s p q =
    at_path (put p v s).1 q ≡ (if is_ok (put p v s).0 && p == q then v else at_path s q)

own-IsStoredBy : (v s : Cell) (q : String) → IsStoredBy v s the_path q
own-IsStoredBy v s q = elim (Bool-cases (the_path == q)) [
  | inl same ↦ rw same refl
  | inr other ↦ rw other refl
]

put-IsStoredBy : (p : String) (v s : Cell) (q : String) → IsStoredBy v s p q
put-IsStoredBy p v s q = elim (Bool-cases (the_path == p)) [
  | inl here ↦ subst (λ r. IsStoredBy v s r q) (==_eq the_path p here) (own-IsStoredBy v s q)
  | inr other ↦ rw other refl
]

listed_under : (s : Cell) → All (λ m. (rest : String) × (m.path ≡ "p/blue" <> rest)) (listed s)
listed_under none = tt
listed_under (some v) = (("/a", refl), tt)

list_ok :
    (prefix : String) (s : Cell) (last : ℕ) (ms : List Stub)
    → list_prefix prefix s ≡ ok (ms, last)
    → (prefix ≡ "p/blue") × (listed s ≡ ms) × (index s ≡ last)
list_ok prefix s last ms h = elim (Bool-cases (prefix == "p/blue")) [
  | inl here ↦
      let same : ok (listed s, index s) ≡ ok (ms, last) = rw here at h in
      (==_eq prefix "p/blue" here, cc same, cc same)
  | inr other ↦
      let none_such : err (new_error "not allowed") ≡ ok (ms, last) = rw other at h in cc none_such
]

listed_paths :
    (prefix : String) (s : Cell) (last : ℕ) (ms : List Stub)
    → list_prefix prefix s ≡ ok (ms, last)
    → All (λ m. (rest : String) × (m.path ≡ prefix <> rest)) ms
listed_paths prefix s last ms h =
    let (here, same, at) = list_ok prefix s last ms h in rw (here, sym same) (listed_under s)

abbrev cell_variables-IsLawful : IsLawful cell_variables
cell_variables-IsLawful = record {
  items = at_path;
  items-list = λ prefix wait s p. refl;
  items-read = λ path s p. refl;
  items-update = λ path v s p. put-IsStoredBy path (some v) s p;
  items-delete = λ path s p. put-IsStoredBy path none s p;
  list_ok = λ prefix wait last s ms h. listed_paths prefix s last ms h;
  read_ok = λ path s v h. read_entry_ok (at_path s path) v h;
  read_err = λ path s e h _. read_entry_err (at_path s path) e h;
  read_panic = λ path s p. read_entry_panic (at_path s path) p;
}

held_at : (s : Cell) (p : String) (v : Items) → at_path s p ≡ some v → (the_path ≡ p) × (s ≡ some v)
held_at s p v h = elim (Bool-cases (the_path == p)) [
  | inl here ↦ (==_eq the_path p here, rw here at h)
  | inr other ↦ let none_there : none ≡ some v = rw other at h in cc none_there
]

listed_all : (s : Cell) (p : String) (v : Items) → at_path s p ≡ some v → In (stub p 7) (listed s)
listed_all s p v h =
    let (here, full) = held_at s p v h in rw full (inl (ap (λ q. stub q 7) (sym here)))

abbrev cell_variables-IsIndexed : IsIndexed cell_variables cell_variables-IsLawful
cell_variables-IsIndexed = record {
  index = index;
  modified = λ s p. 7;
  modified_positive = λ s p v h. omega arith;
  modified_known = λ s p v h. rw ((held_at s p v h).1) (omega arith);
  index-list = λ prefix wait s. refl;
  modified-list = λ prefix wait s p. refl;
  index-read = λ p s. refl;
  modified-read = λ p s q. refl;
  list_index = λ prefix wait last s ms h. sym (list_ok prefix s last ms h).2;
  list_all = λ prefix rest wait last s ms v h held.
      subst (In (stub (prefix <> rest) 7)) (list_ok prefix s last ms h).1
        (listed_all s (prefix <> rest) v held);
}

can_read : CanRead codec cell_variables paths cell_variables-IsLawful
can_read p v t held = rw held refl

abbrev text : Items
text = ("data", "json") ∷ []

abbrev watcher : Loop codec cell_variables paths "blue"
watcher = watch_subnets codec cell_variables paths "blue" none

-- A first round finds nothing, and then the subnet is written.
abbrev behind : Loop codec cell_variables paths "blue"
behind = record (run_round codec cell_variables paths "blue" watcher) { vars = some text }

grown : Changes cell_variables-IsIndexed none (some text)
grown = (omega arith, λ p v held. inr (omega arith))

behind-Reach : Reach codec cell_variables paths "blue" cell_variables-IsIndexed watcher behind
unfolding watch_round watch_listed sort_stubs
behind-Reach = later (later start (round refl)) (change (some text) grown)

watch_subnets_complete_example :
    IsSent mine (run_round codec cell_variables paths "blue" behind).sent
watch_subnets_complete_example =
    watch_subnets_complete codec cell_variables paths "blue" cell_variables-IsLawful
      cell_variables-IsIndexed can_read none behind (stub the_path 7 ∷ []) 9 "/a" mine behind-Reach
      refl (text, refl, parse_ok)

-- Another client learns of the subnet, as it is read back, with a provider that counts.
can_read_json : CanRead json cell_variables paths cell_variables-IsLawful
can_read_json p v t held = rw held refl

abbrev counted : Subnet ℕ → St ℕ (Unit {0})
counted x n = (ok tt, suc n)

abbrev raw_items : Items
raw_items = ("data", raw_text) ∷ []

abbrev other_watcher : Loop json cell_variables paths "blue"
other_watcher = watch_subnets json cell_variables paths "blue" none

abbrev other_behind : Loop json cell_variables paths "blue"
other_behind = record (run_round json cell_variables paths "blue" other_watcher) {
  vars = some raw_items;
}

raw_grown : Changes cell_variables-IsIndexed none (some raw_items)
raw_grown = (omega arith, λ p v held. inr (omega arith))

other_Reach :
    Reach json cell_variables paths "blue" cell_variables-IsIndexed other_watcher other_behind
unfolding watch_round watch_listed sort_stubs
other_Reach = later (later start (round refl)) (change (some raw_items) raw_grown)

other_id : ◌≢◌ {A = String} "a" "b"
other_id e =
    let test : ◌==◌ {A = String} "a" "b" ≡ ◌==◌ {A = String} "b" "b" = ap (λ t. t == "b") e in
    cc test

write_ok : (set_subnet json cell_variables paths raw none).0 ≡ ok tt
unfolding set_subnet
write_ok = refl

write_held :
    at_path (some raw_items) the_path
    ≡ at_path (set_subnet json cell_variables paths raw none).1 the_path
unfolding set_subnet
write_held = refl

subnet-IsLearnt_example :
    IsLearnt json cell_variables cell_variables-IsLawful cell_variables-IsIndexed paths
      can_read_json memory_store "b" counted counted read_raw
      (run_round json cell_variables paths "blue" other_behind).sent
subnet-IsLearnt_example =
    subnet-IsLearnt json cell_variables cell_variables-IsLawful cell_variables-IsIndexed paths
      can_read_json memory_store "b" counted counted raw read_raw raw_text "/a" none none
      other_behind (stub the_path 7 ∷ []) 9 refl raw_read refl refl other_id write_ok other_Reach
      write_held refl

list_ok_text : (list_subnets codec cell_variables paths "blue" (some text)).0 ≡ ok (mine ∷ [])
unfolding list_subnets read_subnets parse_client_subnet_config
list_ok_text = refl

list_subnets_iff_example :
    In mine (mine ∷ [])
    ↔ IsUnder codec cell_variables paths cell_variables-IsIndexed "blue" (some text) mine
list_subnets_iff_example =
    list_subnets_iff codec cell_variables paths cell_variables-IsIndexed "blue" (some text)
      (mine ∷ []) mine list_ok_text
