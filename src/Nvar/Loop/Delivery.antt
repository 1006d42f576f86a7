-- ===== src/Nvar/Loop/Delivery.antt =====
-- What the watch has sent of what the variables hold.
use smuggle.Prelude.{
  ℕ, String, Bool-cases, true, false, List, [], ◌∷◌, ◌++◌, map, ◌≡◌, ◌⊎◌, inl, inr, refl, In, ◌∙◌,
  ltb, leb,
}
use smuggle.Prelude.Error.{Result, ok, err, panic}
use smuggle.Subnet.{Subnet}
use smuggle.Nvar.{Paths}
use smuggle.Nvar.Interface.{Variables, Codec, Stub, IsLawful}
use smuggle.Nvar.Watch.{
  Message, Round, error_ch, delete_ch, modify_ch, messages, send_expired, send_modified, sort_stubs,
  watch_listed, watch_round, IsReported,
}

-- A subnet was sent on the channel of its kind.
abbrev pub IsSent : {IP : Type 0} → Subnet IP → List (Message IP) → Type 0
IsSent {IP = IP} x ms =
    ((x.expired ≡ true) × (l : List (Subnet IP)) × In x l × In (delete_ch l) ms)
    ⊎ ((x.expired ≡ false) × (l : List (Subnet IP)) × In x l × In (modify_ch l) ms)

In-left : {A : Type 0} (x : A) (l m : List A) → In x l → In x (l ++ m)
In-left x [] m h = absurd h
In-left x (y ∷ l) m (inl e) = inl e
In-left x (y ∷ l) m (inr h) = inr (In-left x l m h)

In-right : {A : Type 0} (x : A) (l m : List A) → In x m → In x (l ++ m)
In-right x [] m h = h
In-right x (y ∷ l) m h = inr (In-right x l m h)

pub IsSent-left :
    {IP : Type 0} (x : Subnet IP) (l m : List (Message IP)) → IsSent x l → IsSent x (l ++ m)
IsSent-left x l m (inl (e, xs, at, h)) = inl (e, xs, at, In-left (delete_ch xs) l m h)
IsSent-left x l m (inr (e, xs, at, h)) = inr (e, xs, at, In-left (modify_ch xs) l m h)

pub IsSent-right :
    {IP : Type 0} (x : Subnet IP) (l m : List (Message IP)) → IsSent x m → IsSent x (l ++ m)
IsSent-right x l m (inl (e, xs, at, h)) = inl (e, xs, at, In-right (delete_ch xs) l m h)
IsSent-right x l m (inr (e, xs, at, h)) = inr (e, xs, at, In-right (modify_ch xs) l m h)

In-send_expired :
    {IP : Type 0} (x : Subnet IP) (l : List (Subnet IP))
    → In x l
    → In (delete_ch l) (send_expired l)
In-send_expired x [] h = absurd h
In-send_expired x (y ∷ l) h = inl refl

In-send_modified :
    {IP : Type 0} (x : Subnet IP) (l : List (Subnet IP))
    → In x l
    → In (modify_ch l) (send_modified l)
In-send_modified x [] h = absurd h
In-send_modified x (y ∷ l) h = inl refl

module _ {IP : Type 0} (C : Codec IP) (V : Variables) (paths : Paths) (network : String) where
  open V use {State, list, read}

  pub IsReported-IsSent :
      (L : IsLawful V) (r : Round IP) (x : Subnet IP)
      → IsReported C V paths L r x
      → IsSent x (messages r)
  unfolding messages
  IsReported-IsSent L r x (inl (expired, at)) = inl (
    expired,
    r.expired_configs,
    at,
    In-right (delete_ch r.expired_configs) (map error_ch r.errors) _ (
        In-left (delete_ch r.expired_configs) (send_expired r.expired_configs) _
          (In-send_expired x r.expired_configs at)),
  )
  IsReported-IsSent L r x (inr (live, at)) = inr (
    live,
    r.modified_configs,
    at,
    In-right (modify_ch r.modified_configs) (map error_ch r.errors) _ (
        In-right (modify_ch r.modified_configs) (send_expired r.expired_configs) _
          (In-send_modified x r.modified_configs at)),
  )

  -- What the calls of a round keep, the round keeps.
  module _ {B : Type 0} (view : State → B)
      (view-list : (prefix : String) (wait : ℕ) (s : State) → view (list prefix wait s).1 ≡ view s)
      (view-read : (p : String) (s : State) → view (read p s).1 ≡ view s) where
    view-sort_stubs :
        (wait_index : ℕ) (ms : List Stub) (s : State)
        → view (sort_stubs C V paths wait_index ms s).1 ≡ view s
    unfolding sort_stubs
    view-sort_stubs wait_index [] s = refl
    view-sort_stubs wait_index (m ∷ rest) s = elim (Bool-cases (ltb m.modify_index wait_index)) [
      | inl old ↦ rw old (view-sort_stubs wait_index rest s)
      | inr new ↦ rw new (view-sort_stubs wait_index rest (read m.path s).1 ∙ view-read m.path s)
    ]

    view-watch_listed :
        (wait_index : ℕ) (r : Result (List Stub × ℕ)) (t : State)
        → view (watch_listed C V paths wait_index r t).2 ≡ view t
    unfolding watch_listed
    view-watch_listed wait_index (ok (l, last)) t = elim (Bool-cases (leb last wait_index)) [
      | inl old ↦ rw old refl
      | inr new ↦ rw new (view-sort_stubs wait_index l t)
    ]
    view-watch_listed wait_index (err e) t = refl
    view-watch_listed wait_index (panic p) t = refl

    pub view-watch_round :
        (wait_index : ℕ) (s : State) → view (watch_round C V paths network wait_index s).2 ≡ view s
    unfolding watch_round
    view-watch_round wait_index s =
        let prefix = C.join (paths.client_path ∷ network ∷ []) in
        view-watch_listed wait_index (list prefix wait_index s).0 (list prefix wait_index s).1
        ∙ view-list prefix wait_index s
