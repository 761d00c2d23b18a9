-- ===== src/Net/Device/Unlink.antt =====
-- net/dev.c: the walk of `unregister_netdev` takes one device out of the list.
use linuxab.Prelude.{
  ℕ, zero, suc, ◌+◌, ◌-◌, ◌<◌, ◌≤◌, ◌≡◌, ◌≢◌, refl, ap, subst, ◌∙◌, inl, inr, true, false, some,
  List, [], ◌∷◌, ◌==◌, length, arith, Bool-cases,
}
use linuxab.Types.Text.{Text}
use linuxab.Net.Queue.{put}
use linuxab.Prelude.Distinct.{NotIn, Distinct}
use linuxab.Net.Device.{
  Devices, Place, at_base, at_next, read_place, write_place, unlink, unregister_netdev,
  dev_get_by_name,
}
use linuxab.Prelude.Distinct.{without, Distinct-without, length-without}
use linuxab.Net.Device.Chain.{
  Listed, IsDevices, Listed-put, NamesDiffer-without, find_name-named, named,
}

-- Whether a place is another than `q`, and no `next` of a list.
abbrev Apart : Place → Place → Type 0
Apart at_base at_base = ⊥
Apart at_base (at_next e) = Unit {0}
Apart (at_next d) at_base = Unit {0}
Apart (at_next d) (at_next e) = d ≢ e

abbrev Outside : Place → List ℕ → Type 0
Outside at_base xs = Unit {0}
Outside (at_next d) xs = NotIn d xs

-- The devices once `dev` is unlinked from the list `xs` that begins at `p`.
record Unlinked (p : Place) (dev : ℕ) (xs : List ℕ) (s s' : Devices) : Type 0 where
  listed : Listed s'.next (read_place p s') (without dev xs)
  names : s'.name ≡ s.name
  counted : s'.dev_count + length xs ≡ s.dev_count + length (without dev xs)
  frame : (q : Place) → Apart q p → Outside q xs → read_place q s' ≡ read_place q s

-- `*p = dev->next; dev_count--;`
abbrev taken_out : Place → ℕ → Devices → Devices
taken_out p dev s =
    let s1 = write_place p (s.next dev) s in record s1 { dev_count = s1.dev_count - 1 }

taken_out_frame :
    (p q : Place) (dev : ℕ) (s : Devices)
    → Apart q p
    → read_place q (taken_out p dev s) ≡ read_place q s
unfolding read_place write_place
taken_out_frame at_base at_base dev s a = absurd a
taken_out_frame at_base (at_next d) dev s a = refl
taken_out_frame (at_next e) at_base dev s a = refl
taken_out_frame (at_next e) (at_next d) dev s a = ground arith

taken_out-Listed :
    (p : Place) (dev : ℕ) (s : Devices) (xs : List ℕ)
    → Listed s.next (s.next dev) xs
    → Outside p xs
    → Listed (taken_out p dev s).next (read_place p (taken_out p dev s)) xs
unfolding read_place write_place
taken_out-Listed at_base dev s xs l o = l
taken_out-Listed (at_next e) dev s xs l o =
    let here : put s.next e (s.next dev) e ≡ s.next dev = ground arith in
    rw here (Listed-put s.next e (s.next dev) (s.next dev) xs o l)

taken_out_names : (p : Place) (dev : ℕ) (s : Devices) → (taken_out p dev s).name ≡ s.name
unfolding write_place
taken_out_names at_base dev s = refl
taken_out_names (at_next e) dev s = refl

taken_out_count :
    (p : Place) (dev : ℕ) (s : Devices) → (taken_out p dev s).dev_count ≡ s.dev_count - 1
unfolding write_place
taken_out_count at_base dev s = refl
taken_out_count (at_next e) dev s = refl

Outside-tail : (p : Place) (x : ℕ) (xs : List ℕ) → Outside p (x ∷ xs) → Outside p xs
Outside-tail at_base x xs o = tt
Outside-tail (at_next d) x xs o = o.1

-- The `next` of a member is another place than one outside.
Outside-Apart : (p : Place) (x : ℕ) (xs : List ℕ) → Outside p (x ∷ xs) → Apart p (at_next x)
Outside-Apart at_base x xs o = tt
Outside-Apart (at_next d) x xs o = o.0

rest_Listed :
    (x : ℕ) (s : Devices) (xs : List ℕ)
    → Listed s.next (s.next x) xs
    → Listed s.next (read_place (at_next x) s) xs
unfolding read_place
rest_Listed x s xs l = l

-- What is unlinked behind a member that stays.
kept_Unlinked :
    (p : Place) (dev : ℕ) (s s' : Devices) (x : ℕ) (xs : List ℕ)
    → Listed s.next (read_place p s) (x ∷ xs)
    → NotIn x xs
    → Outside p (x ∷ xs)
    → (x == dev) ≡ false
    → Unlinked (at_next x) dev xs s s'
    → Unlinked p dev (x ∷ xs) s s'
unfolding read_place
kept_Unlinked p dev s s' x xs l d o f u =
    let here : read_place p s' ≡ x =
      u.frame p (Outside-Apart p x xs o) (Outside-tail p x xs o) ∙ l.0 in
    record {
      listed = rw f (here, l.1, u.listed);
      names = u.names;
      counted = rw f (omega (arith, u.counted));
      frame = λ q a b. u.frame q (Outside-Apart q x xs b) (Outside-tail q x xs b);
    }

unlink-Unlinked :
    (fuel : ℕ) (p : Place) (dev : ℕ) (s : Devices) (xs : List ℕ)
    → Listed s.next (read_place p s) xs
    → Distinct xs
    → Outside p xs
    → length xs < fuel
    → length xs ≤ s.dev_count
    → (s' : Devices) × (unlink fuel p dev s ≡ some s') × Unlinked p dev xs s s'
unfolding unlink
unlink-Unlinked zero p dev s xs l d o h k = absurd (omega arith)
unlink-Unlinked (suc fuel) p dev s [] l d o h k =
    let t : (read_place p s == 0) ≡ true = ground arith in
    (
      s,
      rw (t, unlink) refl,
      record { listed = l; names = refl; counted = refl; frame = λ q a b. refl },
    )
unlink-Unlinked (suc fuel) p dev s (x ∷ xs) l d o h k =
    let t : (read_place p s == 0) ≡ false = ground arith in
    elim (Bool-cases (x == dev)) [
      | inl f ↦
          let e : x ≡ dev = ground arith in
          let g : (read_place p s == dev) ≡ true = ground arith in
          (
            taken_out p dev s,
            rw (t, g, unlink) refl,
            record {
              listed = rw f (
                  taken_out-Listed p dev s xs (subst (λ z. Listed s.next (s.next z) xs) e (l.2))
                    (Outside-tail p x xs o));
              names = taken_out_names p dev s;
              counted = rw f (omega (arith, taken_out_count p dev s));
              frame = λ q a b. taken_out_frame p q dev s a;
            },
          )
      | inr f ↦
          let g : (read_place p s == dev) ≡ false = ground arith in
          let (s', runs, u) =
            unlink-Unlinked fuel (at_next x) dev s xs (rest_Listed x s xs l.2) d.1 d.0 (omega arith)
              (omega arith) in
          (
            s',
            rw (t, g, unlink) (ap (λ z. unlink fuel (at_next z) dev s) l.0 ∙ runs),
            kept_Unlinked p dev s s' x xs l d.0 o f u,
          )
    ]

-- Whether or not the device is registered, the walk ends and leaves the list without it and the others
-- in their order. A look-up by name then finds exactly the devices that are left.
pub unregister_netdev_lem :
    (fuel dev : ℕ) (s : Devices) (xs : List ℕ)
    → IsDevices s xs
    → length xs < fuel
    → (s' : Devices) × (unregister_netdev fuel dev s ≡ some s')
      × IsDevices s' (without dev xs)
      × ((n : Text) → dev_get_by_name fuel s' n ≡ some (named s.name n (without dev xs)))
unfolding unregister_netdev read_place dev_get_by_name
unregister_netdev_lem fuel dev s xs v h =
    let (s', runs, u) =
      unlink-Unlinked fuel at_base dev s xs v.listed v.distinct tt h (omega (arith, v.counted)) in
    (
      s',
      runs,
      record {
        listed = u.listed;
        distinct = Distinct-without dev xs v.distinct;
        names = rw (u.names) (NamesDiffer-without s.name dev xs v.names);
        counted = omega (arith, u.counted, v.counted);
      },
      λ n.
          find_name-named fuel s' s'.dev_base n (without dev xs) u.listed
            (omega (arith, length-without dev xs))
          ∙ ap (λ f. some (named f n (without dev xs))) u.names,
    )
