-- ===== src/Net/Device/Register.antt =====
-- net/dev.c: registration, and what a look-up by name finds behind it.
use linuxab.Prelude.{
  ℕ, suc, ◌<◌, ◌≡◌, ◌≢◌, refl, ap, ◌∙◌, inl, inr, true, false, not, Bool, Option, none, some, List,
  ◌∷◌, ◌==◌, ◌&&◌, if◌then◌else◌, length, arith, Bool-cases,
}
use linuxab.Types.Text.{Text}
use linuxab.Net.Queue.{put}
use linuxab.Prelude.Distinct.{NotIn}
use linuxab.Net.Device.{
  Devices, same_text, no_name, eth_name, init_fails, auto_name, link, find_name, register_netdev,
  dev_get_by_name,
}
use linuxab.Net.Device.Chain.{
  IsDevices, Listed-put, named, find_name-named, named-renamed, NamesDiffer-renamed, Unnamed-named,
}

-- The name that a device is registered under.
abbrev pub name_taken : ℕ → Devices → Text
name_taken dev s = if no_name (s.name dev) then eth_name s.dev_count else s.name dev

auto_name-IsDevices :
    (dev : ℕ) (s : Devices) (xs : List ℕ)
    → NotIn dev xs
    → IsDevices s xs
    → IsDevices (auto_name dev s) xs
unfolding auto_name
auto_name-IsDevices dev s xs h v = elim (Bool-cases (no_name (s.name dev))) [
  | inl t ↦ rw t (record {
    listed = v.listed;
    distinct = v.distinct;
    names = NamesDiffer-renamed s.name dev (eth_name s.dev_count) xs h v.names;
    counted = v.counted;
  })
  | inr f ↦ rw f v
]

auto_name-name : (dev : ℕ) (s : Devices) → (auto_name dev s).name dev ≡ name_taken dev s
unfolding auto_name
auto_name-name dev s = ground arith

auto_name-named :
    (dev : ℕ) (s : Devices) (n : Text) (xs : List ℕ)
    → NotIn dev xs
    → named (auto_name dev s).name n xs ≡ named s.name n xs
unfolding auto_name
auto_name-named dev s n xs h = elim (Bool-cases (no_name (s.name dev))) [
  | inl t ↦ rw t (named-renamed s.name dev (eth_name s.dev_count) n xs h)
  | inr f ↦ rw f refl
]

link-IsDevices :
    (dev : ℕ) (s : Devices) (xs : List ℕ)
    → dev ≢ 0
    → NotIn dev xs
    → named s.name (s.name dev) xs ≡ 0
    → IsDevices s xs
    → IsDevices (link dev s) (dev ∷ xs)
unfolding link
link-IsDevices dev s xs some_dev h free v =
    let e : put s.next dev s.dev_base dev ≡ s.dev_base = ground arith in
    record {
      listed = (refl, some_dev, rw e (Listed-put s.next dev s.dev_base s.dev_base xs h v.listed));
      distinct = (h, v.distinct);
      names = (Unnamed-named s.next s.name (s.name dev) s.dev_base xs v.listed free, v.names);
      counted = omega (arith, v.counted);
    }

refused_names :
    (fuel dev : ℕ) (s : Devices) (xs : List ℕ)
    → NotIn dev xs
    → IsDevices (auto_name dev s) xs
    → length xs < fuel
    → (n : Text) → dev_get_by_name (suc fuel) (auto_name dev s) n ≡ some (named s.name n xs)
unfolding dev_get_by_name
refused_names fuel dev s xs h v small n =
    find_name-named (suc fuel) (auto_name dev s) (auto_name dev s).dev_base n xs v.listed
      (omega arith)
    ∙ ap some (auto_name-named dev s n xs h)

linked_names :
    (fuel dev : ℕ) (s : Devices) (xs : List ℕ)
    → NotIn dev xs
    → IsDevices (link dev (auto_name dev s)) (dev ∷ xs)
    → length xs < fuel
    → (n : Text)
    → dev_get_by_name (suc fuel) (link dev (auto_name dev s)) n
      ≡ some (if same_text (name_taken dev s) n then dev else named s.name n xs)
unfolding dev_get_by_name link
linked_names fuel dev s xs h v small n =
    let s1 : Devices = auto_name dev s in
    find_name-named (suc fuel) (link dev s1) dev n (dev ∷ xs) v.listed (omega arith)
    ∙ ap (λ k. some (if same_text k n then dev else named s1.name n xs)) (auto_name-name dev s)
    ∙ ap (λ r. some (if same_text (name_taken dev s) n then dev else r))
        (auto_name-named dev s n xs h)

-- What registration comes to once the walk has found `found`.
abbrev decided : Option ℕ → ℕ → Devices → ℕ → Option (Bool × Devices)
decided init dev s1 found =
    if not (found == 0)
    then some (false, s1)
    else if init_fails init
    then some (false, s1)
    else some (true, link dev s1)

register_netdev-decided :
    (fuel dev : ℕ) (init : Option ℕ) (s : Devices) (found : ℕ)
    → let s1 = auto_name dev s in
      find_name fuel s1 s1.dev_base (s1.name dev) ≡ some found
      → register_netdev fuel init dev s ≡ decided init dev s1 found
unfolding register_netdev
register_netdev-decided fuel dev init s found e =
    ap (λ o. elim o [ none ↦ none | some k ↦ decided init dev (auto_name dev s) k ]) e

-- Registration succeeds exactly when no registered device has the name and the device's `init` does
-- not fail, where a device without a name gets that of the count. It then comes first in the list
-- and is what its name finds, and every other name finds what it found. Otherwise the list and what
-- every name finds stay.
pub register_netdev_lem :
    (fuel dev : ℕ) (init : Option ℕ) (s : Devices) (xs : List ℕ)
    → IsDevices s xs
    → dev ≢ 0
    → NotIn dev xs
    → length xs < fuel
    → let name = name_taken dev s in
      let ok = named s.name name xs == 0 && not (init_fails init) in
      (s' : Devices) × (register_netdev fuel init dev s ≡ some (ok, s'))
      × IsDevices s' (if ok then dev ∷ xs else xs)
      × ((n : Text)
          → dev_get_by_name (suc fuel) s' n
            ≡ some (if ok && same_text name n then dev else named s.name n xs))
register_netdev_lem fuel dev init s xs v some_dev h small =
    let s1 : Devices = auto_name dev s in
    let v1 = auto_name-IsDevices dev s xs h v in
    let found : find_name fuel s1 s1.dev_base (s1.name dev)
        ≡ some (named s.name (name_taken dev s) xs) =
      find_name-named fuel s1 s1.dev_base (s1.name dev) xs v1.listed small
      ∙ ap some (auto_name-named dev s (s1.name dev) xs h)
      ∙ ap (λ n. some (named s.name n xs)) (auto_name-name dev s) in
    let runs = register_netdev-decided fuel dev init s (named s.name (name_taken dev s) xs) found in
    elim (Bool-cases (named s.name (name_taken dev s) xs == 0)) [
      | inl t ↦ elim (Bool-cases (init_fails init)) [
        | inl i ↦ rw (t, i) (s1, runs ∙ rw (t, i) refl, v1, refused_names fuel dev s xs h v1 small)
        | inr i ↦
            let free : named s1.name (s1.name dev) xs ≡ 0 =
              auto_name-named dev s (s1.name dev) xs h
              ∙ ap (λ n. named s.name n xs) (auto_name-name dev s)
              ∙ ground arith in
            let w = link-IsDevices dev s1 xs some_dev h free v1 in
            rw (t, i) (link dev s1, runs ∙ rw (t, i) refl, w, linked_names fuel dev s xs h w small)
      ]
      | inr f ↦ rw f (s1, runs ∙ rw f refl, v1, refused_names fuel dev s xs h v1 small)
    ]
