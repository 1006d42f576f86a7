-- ===== src/Client/Discovery.antt =====
-- How a client learns of the subnet of another: `SetSubnet` and `WatchSubnets` of
-- internal/store/nvar/nvar.go, and the handler in internal/agent/client/subnet.go.
use smuggle.Prelude.{
  ℕ, String, Bool-cases, false, List, [], ◌∷◌, ◌≡◌, ◌≢◌, ◌∙◌, sym, ap, In, inl, inr, ◌<>◌, ◌==◌,
  ==_ne, string_eq,
}
use smuggle.Prelude.Error.{ok}
use smuggle.Prelude.State.{St}
use smuggle.Subnet.{Subnet}
use smuggle.Store.{Store}
use smuggle.Nvar.{Paths, parse_client_subnet_config, set_subnet, subnet_path}
use smuggle.Nvar.Interface.{Variables, Codec, Stub, IsLawful}
use smuggle.Nvar.Entries.{set_subnet-items}
use smuggle.Nvar.Watch.{Message, modify_ch, CanRead}
use smuggle.Nvar.Loop.{IsIndexed, Loop, watch_subnets, run_round, Reach}
use smuggle.Nvar.Loop.Delivery.{IsSent}
use smuggle.Nvar.Loop.Complete.{prefix, watch_subnets_complete}
use smuggle.Client.Remote.{others, run_each, handle_subnet_report_lem}
use smuggle.Client.Goroutines.{handle_message}

In-others :
    {IP : Type 0} (id : String) (x : Subnet IP) (l : List (Subnet IP))
    → x.client_id ≢ id
    → In x l
    → In x (others id l)
In-others id x [] apart h = absurd h
In-others id x (y ∷ l) apart (inl same) =
    let other : (y.client_id == id) ≡ false =
      ==_ne y.client_id id (λ e. apart (ap (λ (z : Subnet _). z.client_id) same ∙ e)) in
    rw other (inl same)
In-others id x (y ∷ l) apart (inr h) = elim (Bool-cases (y.client_id == id)) [
  | inl own ↦ rw own (In-others id x l apart h)
  | inr other ↦ rw other (inr (In-others id x l apart h))
]

module _ {IP H : Type 0} (C : Codec IP) (V : Variables) (L : IsLawful V) (X : IsIndexed V L)
    (paths : Paths) (can : CanRead C V paths L) (S : Store IP) (id : String)
    (set_remote delete_remote : Subnet IP → St H (Unit {0})) where
  open V use {State, list}
  open L use {items}

  -- The handler gets a list with the subnet, on which it calls `SetRemote` for every subnet of
  -- another client, with this one among them.
  abbrev pub IsLearnt : Subnet IP → List (Message IP) → Type 0
  IsLearnt x sent =
      (l : List (Subnet IP)) × In (modify_ch l) sent
      × In x (others id l)
      × ((h : H)
          → handle_message S id set_remote delete_remote (modify_ch l) h
            ≡ run_each set_remote (others id l) h)

  IsSent-IsLearnt :
      (x : Subnet IP) (ms : List (Message IP))
      → x.expired ≡ false
      → x.client_id ≢ id
      → IsSent x ms
      → IsLearnt x ms
  unfolding handle_message
  IsSent-IsLearnt x ms live apart (inl (expired, l, at, sent)) = cc (live, expired)
  IsSent-IsLearnt x ms live apart (inr (_, l, at, sent)) = (
    l,
    sent,
    In-others id x l apart at,
    λ h. (handle_subnet_report_lem id set_remote delete_remote l h).0,
  )

  parse-text :
      (t u : String) (y : Subnet IP)
      → u ≡ t
      → C.unmarshal t ≡ ok y
      → parse_client_subnet_config C (("data", u) ∷ []) ≡ ok y
  unfolding parse_client_subnet_config
  parse-text t u y same read = ap C.unmarshal same ∙ read

  -- Where reads of what is there succeed and Nomad's indexes grow with each change: a client has
  -- written a subnet with success under a path with its network's prefix, and its entry is still as it
  -- was written when a round of another client's watch lists the network with success. By the end of
  -- that round what the JSON text of the subnet is read back as, if that is not marked as expired and
  -- names another client, has been sent to the handler, which calls `SetRemote` for it. The watch may
  -- have begun before or after the write.
  pub subnet-IsLearnt :
      (x y : Subnet IP) (t rest : String) (before s : State) (w : Loop C V paths x.network_name)
      (ms : List Stub) (last : ℕ)
      → C.marshal x ≡ ok t
      → C.unmarshal t ≡ ok y
      → subnet_path C V paths x.network_name x.client_id
        ≡ prefix C V paths x.network_name L X can <> rest
      → y.expired ≡ false
      → y.client_id ≢ id
      → (set_subnet C V paths x before).0 ≡ ok tt
      → Reach C V paths x.network_name X (watch_subnets C V paths x.network_name s) w
      → items w.vars (subnet_path C V paths x.network_name x.client_id)
        ≡ items (set_subnet C V paths x before).1 (subnet_path C V paths x.network_name x.client_id)
      → (list (prefix C V paths x.network_name L X can) w.wait_index w.vars).0 ≡ ok (ms, last)
      → IsLearnt y (run_round C V paths x.network_name w).sent
  subnet-IsLearnt x y t rest before s w ms last text read at live apart written r same given =
      let (u, again, held) = set_subnet-items C V L paths x before written in
      let one : u ≡ t = cc (again, text) in
      let there = ap (items w.vars) (sym at) ∙ same ∙ held in
      IsSent-IsLearnt y _ live apart (
        watch_subnets_complete C V paths x.network_name L X can s w ms last rest y r given
          (("data", u) ∷ [], there, parse-text t u y one read))
