-- ===== src/Tests/Disks.antt =====
-- A disk in memory, and the theorems on files applied to it.
use Prim.Native.String.{◌∷◌ as ◌then_text◌}
use text.Mathlib.TextLemmas.{cons-append, head-eq_of_cons-eq}
use smuggle.Prelude.{
  String, true, false, ◌<>◌, Option, none, some, [], ◌∷◌, ◌≡◌, ◌≢◌, refl, ◌==◌, string_eq, ==_ne,
  ==_refl, ap, ◌∙◌, sym, if◌then◌else◌, ◌⊎◌, All,
}
use smuggle.Prelude.Error.{Error, Result, ok, err, panic, sentinel, is_error, wrap}
use smuggle.Prelude.Int.{pos}
use smuggle.Client.Init.{CniConfig}
use smuggle.Client.Identity.{generate_id, generate_id_again, store_new_id}
use smuggle.Cli
use smuggle.Cli.{
  Terminal, init_command, init_action, write_example, report_written, init_command_lem,
}
use smuggle.Disk.{FileSystem, IsLawful}
use smuggle.Disk.Cni.{set, discard, fill, temp_file}
use smuggle.Disk.Atomic.{set_atomic, started, IsWhole, Ends}

abbrev pub Drive : Type 0
Drive = String → Option String

abbrev pub set_at : String → Option String → Drive → Drive
set_at p v s q = if p == q then v else s q

abbrev pub absent : Error
absent = sentinel "file does not exist"

abbrev pub made : Option String → Drive → Result String × Drive
made none s = (ok ".cni-1.tmp", set_at ".cni-1.tmp" (some "") s)
made (some x) s = (err absent, s)

abbrev pub read : Option String → Result String
read none = err absent
read (some x) = ok x

abbrev pub disk : FileSystem
disk = record {
  State = Drive;
  join = λ d n. "/" <> (d <> ("/" <> n));
  is_not_exist = λ e. is_error e "file does not exist";
  mkdir_all = λ d s. (ok tt, s);
  create_temp = λ d pattern s. made (s ".cni-1.tmp") s;
  write = λ t x s. (ok tt, set_at t (some x) s);
  sync = λ t s. (ok tt, s);
  close = λ t s. (ok tt, s);
  remove = λ t s. (ok tt, set_at t none s);
  rename = λ t q s. (ok tt, set_at q (s t) (set_at t none s));
  read_file = λ p s. read (s p);
  write_file = λ p x s. (ok tt, set_at p (some x) s);
}

set_at_same : (p : String) (v : Option String) (s : Drive) → set_at p v s p ≡ v
set_at_same p v s = rw (==_refl p) refl

set_at_other : (p q : String) (v : Option String) (s : Drive) → p ≢ q → set_at p v s q ≡ s q
set_at_other p q v s apart = rw (==_ne p q apart) refl

-- A temporary name does not begin like the name of a configuration.
named_apart : (x : String) → ".cni-1.tmp" ≢ ("/" <> x)
named_apart x e =
    let head = head-eq_of_cons-eq (e ∙ cons-append "/" "" x) in
    let test : ◌==◌ {A = String} "." "/" ≡ ◌==◌ {A = String} "/" "/" =
      ap (λ c. (c then_text "") == "/") head in
    cc test

made_new :
    (o : Option String) (s : Drive) (t : String)
    → o ≡ s ".cni-1.tmp"
    → (made o s).0 ≡ ok t
    → (t ≡ ".cni-1.tmp")
      × (s ".cni-1.tmp" ≡ none)
      × ((made o s).1 ≡ set_at ".cni-1.tmp" (some "") s)
made_new none s t at h = (cc h, sym at, refl)
made_new (some x) s t at h = cc h

made_other :
    (o : Option String) (s : Drive) (p : String) → (made o s).0 ≢ ok p → (made o s).1 p ≡ s p
made_other none s p h = set_at_other ".cni-1.tmp" p (some "") s (λ e. h (ap ok e))
made_other (some x) s p h = refl

read_ok : (o : Option String) (x : String) → read o ≡ ok x → o ≡ some x
read_ok none x h = cc h
read_ok (some y) x h = cc h

read_missing : (o : Option String) (e : Error) → read o ≡ err e → o ≡ none
read_missing none e h = refl
read_missing (some y) e h = cc h

read_returns : (o : Option String) (m : String) → read o ≢ panic m
read_returns none m h = cc h
read_returns (some y) m h = cc h

create_new :
    (t : String) (s : Drive)
    → (made (s ".cni-1.tmp") s).0 ≡ ok t
    → (s t ≡ none) × ((made (s ".cni-1.tmp") s).1 t ≡ some "")
create_new t s h =
    let (is, free, after) = made_new (s ".cni-1.tmp") s t refl h in
    rw is (free, rw after (set_at_same ".cni-1.tmp" (some "") s))

abbrev disk-IsLawful : IsLawful disk
disk-IsLawful = record {
  content = λ s. s;
  mkdir_all_keeps = λ d p s. refl;
  create_temp_new = λ d pattern t s h. create_new t s h;
  create_temp_other = λ d pattern p s h. made_other (s ".cni-1.tmp") s p h;
  create_temp_suffix = λ d t name s h e.
      named_apart (d <> ("/" <> (name <> ".conf")))
        (sym (made_new (s ".cni-1.tmp") s t refl h).0 ∙ e);
  write_ok = λ t x s empty h. set_at_same t (some x) s;
  write_other = λ t x p s apart. set_at_other t p (some x) s apart;
  sync_keeps = λ t p s. refl;
  close_keeps = λ t p s. refl;
  remove_other = λ t p s apart. set_at_other t p none s apart;
  rename_ok = λ t q s h. set_at_same q (s t) (set_at t none s);
  rename_other =
      λ t q p s at bt. set_at_other q p (s t) (set_at t none s) bt ∙ set_at_other t p none s at;
  rename_failed = λ t q p s h. absurd (h refl);
  read_file_ok = λ p x s h. read_ok (s p) x h;
  read_file_missing = λ p e s h missing. read_missing (s p) e h;
  read_file_returns = λ p m s. read_returns (s p) m;
  write_file_ok = λ p x s h. set_at_same p (some x) s;
}

abbrev pub blank : Drive
blank p = none

abbrev config : CniConfig
config = record {
  name = "blue";
  bridge = "bluebrd0";
  mtu = pos 1450;
  ip_masq = true;
  ipv4 = record { network = "10.0.0.0/16"; subnet = "10.0.1.1/24"; gateway = "10.0.1.1" };
}

abbrev marshal : CniConfig → Result String
marshal cfg = ok cfg.name

abbrev shelf : Drive
shelf = set_at "/opt/blue.conf" (some "old") (set_at "/opt/red.conf" (some "red") blank)

-- A run ends with the new text under the name, without the temporary file.
set_blue :
    ((set disk marshal "opt" (some config) (started disk disk-IsLawful shelf)).1.now
        "/opt/blue.conf"
      ≡ some "blue")
    × ((set disk marshal "opt" (some config) (started disk disk-IsLawful shelf)).1.now ".cni-1.tmp"
        ≡ none)
unfolding set discard fill temp_file
set_blue = (refl, refl)

set_atomic_example :
    (All (IsWhole disk disk-IsLawful marshal "opt" config shelf) (
      (set disk marshal "opt" (some config) (started disk disk-IsLawful shelf)).1.now
      ∷ (set disk marshal "opt" (some config) (started disk disk-IsLawful shelf)).1.seen))
    × Ends disk disk-IsLawful marshal "opt" config shelf
        (set disk marshal "opt" (some config) (started disk disk-IsLawful shelf)).0
        (set disk marshal "opt" (some config) (started disk disk-IsLawful shelf)).1.now
set_atomic_example = set_atomic disk disk-IsLawful marshal "opt" config shelf

given_id : ◌≢◌ {A = String} "7f" ""
given_id e = cc e

first_id : (generate_id disk "data" "7f" blank).0 ≡ ok "7f"
unfolding generate_id store_new_id
first_id = refl

generate_id_again_example :
    (generate_id disk "data" "99" (generate_id disk "data" "7f" blank).1
      ≡ (ok "7f", (generate_id disk "data" "7f" blank).1))
    ⊎ ((e : Error) × (is_error e "file does not exist" ≡ false)
        × (generate_id disk "data" "99" (generate_id disk "data" "7f" blank).1 ≡ (
          err (wrap "failed to read client ID file: %w" e),
          (generate_id disk "data" "7f" blank).1,
        )))
generate_id_again_example =
    generate_id_again disk disk-IsLawful "data" "7f" "7f" "99" blank given_id first_id

-- `os.Stat`, and a text that is trimmed already.
abbrev present : Option String → Result (Unit {0})
present none = err absent
present (some x) = ok tt

abbrev stat : String → Drive → Result (Unit {0})
stat p s = present (s p)

abbrev trimmed : String → String
trimmed x = x

present_missing : (o : Option String) (e : Error) → present o ≡ err e → o ≡ none
present_missing none e h = refl
present_missing (some x) e h = cc h

abbrev terminal : Terminal disk stat trimmed
terminal = record { disk = blank; printed = [] }

first_init :
    ((init_command disk stat trimmed terminal).0 ≡ ok tt)
    × ((init_command disk stat trimmed terminal).1.disk "smuggle-net.json"
        ≡ some Cli.network_init_content)
unfolding init_command init_action write_example report_written
first_init = (refl, refl)

init_command_lem_example :
    Cli.Ends disk stat trimmed disk-IsLawful
      (λ p e s h m. present_missing (s p) e h)
      terminal
      (init_command disk stat trimmed terminal).0
      (init_command disk stat trimmed terminal).1
init_command_lem_example =
    init_command_lem disk stat trimmed disk-IsLawful (λ p e s h m. present_missing (s p) e h)
      terminal
