-- ===== src/Cli/Settings/Valid.antt =====
-- What the settings are like that MinerCLI::validateArgs accepts.
use etcminer.Prelude.{
  ◌<◌, ◌≡◌, refl, ◌≢◌, arith, leb, ==_iff, ◌==◌, Bool, true, false, ◌&&◌, ◌⊎◌, List, [], ◌∷◌,
  Option, some, none, length, length-append, Text, codes, text_eq, is_empty, if◌then◌else◌, inl,
  inr,
}
use mathlib.Core.Path.{subst}
use etcminer.Pool.Uri.{Uri}
use etcminer.Cli.Options.{Options, notify, on_nonce, on_hwmon, parse_bind}
use etcminer.Cli.Settings.{
  MinerCli, simulation, mining, Library, Validated, accepted, refused, options_error,
  invalid_argument, Parsed, unreadable, with_unknown, known, Attempt, throws, returns_false,
  goes_on, try_read, settle, after_read, runtime_error, push_uri, add_pools, require_pools,
  check_temperatures, and_then, choose_pools, read_options, bind_api, validate_args, only_informs,
}

-- The settings of a program that may go on: a hexadecimal start nonce; a level of monitoring that
-- exists; where the temperature is limited, a monitor and a lower temperature to start again; as many
-- objects as connections; and a connection, unless the devices are only listed.
pub record IsValid (c : MinerCli) : Type 0 where
  pub nonce : on_nonce c.farm_settings.nonce ≡ true
  pub hw_mon : c.farm_settings.hw_mon < 3
  pub monitored : c.farm_settings.temp_stop ≢ 0 → 0 < c.farm_settings.hw_mon
  pub ordered :
      c.farm_settings.temp_stop ≢ 0 → c.farm_settings.temp_start < c.farm_settings.temp_stop
  pub owned : length c.pool_settings.connections ≡ length c.uris
  pub pools : c.should_list_devices ≡ false → 0 < length c.pool_settings.connections

-- What holds before the temperatures are checked.
record IsRead (c : MinerCli) : Type 0 where
  nonce : on_nonce c.farm_settings.nonce ≡ true
  hw_mon : c.farm_settings.hw_mon < 3
  owned : length c.pool_settings.connections ≡ length c.uris

-- The result, where it is accepted, meets P; and it is no error of the options.
abbrev pub Accepts : (MinerCli → Type 0) → Validated → Type 0
Accepts P (accepted c) = P c
Accepts P refused = Unit
Accepts P options_error = ⊥
Accepts P invalid_argument = Unit
Accepts P runtime_error = Unit

and_then-Accepts :
    (P Q : MinerCli → Type 0) (v : Validated) (f : MinerCli → Validated)
    → Accepts P v
    → ((c : MinerCli) → P c → Accepts Q (f c))
    → Accepts Q (and_then v f)
unfolding and_then
and_then-Accepts P Q (accepted c) f h next = next c h
and_then-Accepts P Q refused f h next = tt
and_then-Accepts P Q options_error f h next = h
and_then-Accepts P Q invalid_argument f h next = tt
and_then-Accepts P Q runtime_error f h next = tt

if-Accepts :
    (P : MinerCli → Type 0) (b : Bool) (v w : Validated)
    → (b ≡ true → Accepts P v)
    → (b ≡ false → Accepts P w)
    → Accepts P (if b then v else w)
if-Accepts P true v w h k = h refl
if-Accepts P false v w h k = k refl

found-Accepts :
    {A : Type 0} (P : MinerCli → Type 0) (o : Option A) (v : Validated) (k : A → Validated)
    → Accepts P v
    → ((a : A) → Accepts P (k a))
    → Accepts P (elim o [ none ↦ v | some a ↦ k a ])
found-Accepts P none v k h next = h
found-Accepts P (some a) v k h next = next a

-- The pools are there, or need not be.
abbrev WithPools : MinerCli → Type 0
WithPools c = IsRead c × (c.should_list_devices ≡ false → 0 < length c.pool_settings.connections)

push_uri-IsRead : (u : Uri) (c : MinerCli) → IsRead c → IsRead (push_uri u c)
unfolding push_uri
push_uri-IsRead u c h = record {
  nonce = h.nonce;
  hw_mon = h.hw_mon;
  owned = omega (
    arith,
    h.owned,
    length-append c.pool_settings.connections (length c.uris ∷ []),
    length-append c.uris (u ∷ []),
  );
}

push_uri-some : (u : Uri) (c : MinerCli) → 0 < length (push_uri u c).pool_settings.connections
unfolding push_uri
push_uri-some u c = omega (arith, length-append c.pool_settings.connections (length c.uris ∷ []))

add_pools-Accepts :
    (lib : Library) (first : Bool) (urls : List Text) (c : MinerCli)
    → IsRead c
    → (urls ≢ []) ⊎ (0 < length c.pool_settings.connections)
    → Accepts WithPools (add_pools lib first urls c)
unfolding add_pools
add_pools-Accepts lib first [] c h (inl e) = absurd (e refl)
add_pools-Accepts lib first [] c h (inr e) = (h, λ q. e)
add_pools-Accepts lib first (url ∷ urls) c h e =
    if-Accepts WithPools (text_eq url (codes "exit") && first) _ _ (λ q. tt)
      (λ q.
        found-Accepts WithPools
          (lib.make_uri
            (if text_eq url (codes "exit") then codes "stratum+tcp://-:x@exit:0" else url) false)
          _ _ tt
          (λ u.
            add_pools-Accepts lib false urls (push_uri u c) (push_uri-IsRead u c h)
              (inr (push_uri-some u c))))

is_empty-ne : (urls : List Text) → is_empty urls ≡ false → urls ≢ []
is_empty-ne [] h = cc
is_empty-ne (u ∷ urls) h = λ e. cc

choose_pools-Accepts :
    (lib : Library) (o : Options) (c : MinerCli)
    → IsRead c
    → Accepts WithPools (choose_pools lib o c)
unfolding choose_pools require_pools
choose_pools-Accepts lib o c h =
    if-Accepts WithPools c.bench _ _
      (λ e.
        found-Accepts WithPools (lib.make_uri (codes "simulation://localhost:0") true) _ _ tt (λ u.
          (
            push_uri-IsRead u (record c { mode = simulation })
                (record { nonce = h.nonce; hw_mon = h.hw_mon; owned = h.owned }),
            λ q. push_uri-some u (record c { mode = simulation }),
          )))
      (λ e.
        if-Accepts WithPools c.should_list_devices _ _
          (λ listing. (record { nonce = h.nonce; hw_mon = h.hw_mon; owned = h.owned }, λ q. cc))
          (λ listing.
            if-Accepts WithPools (is_empty o.pool) _ _ (λ q. tt)
              (λ q.
                add_pools-Accepts lib true o.pool (record c { mode = mining })
                  (record { nonce = h.nonce; hw_mon = h.hw_mon; owned = h.owned })
                  (inl (is_empty-ne o.pool q)))))

check_temperatures-Accepts : (c : MinerCli) → WithPools c → Accepts IsValid (check_temperatures c)
unfolding check_temperatures
check_temperatures-Accepts c (h, pools) =
    if-Accepts IsValid (c.farm_settings.temp_stop == 0) _ _
      (λ e.
        let zeroed = (==_iff c.farm_settings.temp_stop 0).0 e in
        record {
          nonce = h.nonce;
          hw_mon = h.hw_mon;
          monitored = λ limited. absurd (limited zeroed);
          ordered = λ limited. absurd (limited zeroed);
          owned = h.owned;
          pools = pools;
        })
      (λ e.
        if-Accepts IsValid (leb c.farm_settings.temp_stop c.farm_settings.temp_start) _ _ (λ q. tt)
          (λ q. record {
            nonce = h.nonce;
            hw_mon = ground (arith, h.hw_mon);
            monitored = λ limited. ground arith;
            ordered = λ limited. ground arith;
            owned = h.owned;
            pools = pools;
          }))

read_options-IsRead : (lib : Library) (o : Options) → notify o ≡ true → IsRead (read_options lib o)
unfolding read_options notify on_hwmon
read_options-IsRead lib o h = record { nonce = ground arith; hw_mon = ground arith; owned = refl }

bind_api-Accepts : (lib : Library) (c : MinerCli) → IsRead c → Accepts IsRead (bind_api lib c)
unfolding bind_api
bind_api-Accepts lib c h =
    if-Accepts IsRead (is_empty c.api_bind) _ _ (λ e. h)
      (λ e.
        found-Accepts IsRead (parse_bind lib.address lib.stoi c.api_bind true) _ _ tt
          (λ (a, p). record { nonce = h.nonce; hw_mon = h.hw_mon; owned = h.owned }))

settle-Accepts : (lib : Library) (o : Options) → notify o ≡ true → Accepts IsValid (settle lib o)
unfolding settle
settle-Accepts lib o checked =
    if-Accepts IsValid (only_informs o) refused _ (λ e. tt)
      (λ e.
        and_then-Accepts IsRead IsValid (bind_api lib (read_options lib o)) _
          (bind_api-Accepts lib (read_options lib o) (read_options-IsRead lib o checked))
          (λ c h.
            and_then-Accepts WithPools IsValid (choose_pools lib o c) _
              (choose_pools-Accepts lib o c h) (λ d k. check_temperatures-Accepts d k)))

-- The options that the block passes on have been checked.
abbrev Checked : Attempt → Type 0
Checked throws = Unit
Checked returns_false = Unit
Checked (goes_on o) = notify o ≡ true

if-Checked :
    (b : Bool) (x y : Attempt)
    → (b ≡ true → Checked x)
    → (b ≡ false → Checked y)
    → Checked (if b then x else y)
if-Checked true x y h k = h refl
if-Checked false x y h k = k refl

try_read-Checked : (parsed : Parsed) → Checked (try_read parsed)
unfolding try_read
try_read-Checked unreadable = tt
try_read-Checked (with_unknown o) = if-Checked (notify o) returns_false throws (λ e. tt) (λ e. tt)
try_read-Checked (known o) = if-Checked (notify o) (goes_on o) throws (λ e. e) (λ e. tt)

after_read-Accepts : (lib : Library) (a : Attempt) → Checked a → Accepts IsValid (after_read lib a)
unfolding after_read
after_read-Accepts lib throws h = tt
after_read-Accepts lib returns_false h = tt
after_read-Accepts lib (goes_on o) h = settle-Accepts lib o h

pub validate_args-Accepts :
    (lib : Library) (parsed : Parsed) → Accepts IsValid (validate_args lib parsed)
unfolding validate_args
validate_args-Accepts lib parsed =
    after_read-Accepts lib (try_read parsed) (try_read-Checked parsed)

-- Settings that validateArgs accepts are valid: the start nonce is hexadecimal and the monitoring level
-- exists; where a temperature limit is set there is monitoring, and the temperature to start again is
-- below it; each connection has its object; and there is a connection, unless the devices are listed.
pub validate_args-IsValid :
    (lib : Library) (parsed : Parsed) (c : MinerCli)
    → validate_args lib parsed ≡ accepted c
    → IsValid c
validate_args-IsValid lib parsed c e = subst (Accepts IsValid) e (validate_args-Accepts lib parsed)
