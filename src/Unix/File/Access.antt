-- ===== src/Unix/File/Access.antt =====
-- unix/kernel/ken/fio.c: who may do what with an inode, by the bits of its mode.
use linuxab.Prelude.{
  ℕ, zero, suc, ◌-◌, ◌/◌, ◌^◌, ◌<◌, ◌≤◌, ◌≡◌, refl, ap, sym, ◌∙◌, true, false, Bool, not, ◌==◌,
  ◌&&◌, ◌||◌, if◌then◌else◌, arith, inl, inr, Bool-cases,
}
use linuxab.Prelude.Bits.{has_bit, and_or_zero}
use linuxab.Prelude.HasBit.{has_bit-shift}
use linuxab.Unix.File.{Conf, User, Inode, Error, erofs, etxtbsy, eacces, fail, class_bits, access}
use native.Mathlib.Nat.{pow-suc}
use Prim.Native.Nat.{bit_and, bit_or}

pow-eq : (b w : ℕ) → ((◌^◌ 2 b) == (2 ^ w)) ≡ (b == w)
pow-eq b w = elim (Bool-cases ((◌^◌ 2 b) == (2 ^ w))) [
  | inl t ↦
      let e : (◌^◌ 2 b) ≡ 2 ^ w = ground arith in
      let same : (w == w) ≡ true = ground arith in
      t ∙ sym (sym (has_bit-shift b w) ∙ ap (λ z. has_bit z w) e ∙ has_bit-shift w w ∙ same)
  | inr f ↦ elim (Bool-cases (b == w)) [
    | inl t ↦
        let e : b ≡ w = ground arith in
        let same : ((◌^◌ 2 w) == (2 ^ w)) ≡ true = ground arith in
        absurd (let bad : false ≡ true = sym f ∙ ap (λ z. (◌^◌ 2 z) == (2 ^ w)) e ∙ same in cc)
    | inr g ↦ f ∙ sym g
  ]
]

pow_shift : (b : ℕ) → 3 ≤ b → 2 ^ b / 8 ≡ 2 ^ (b - 3)
pow_shift zero h = absurd (omega arith)
pow_shift (suc zero) h = absurd (omega arith)
pow_shift (suc (suc zero)) h = absurd (omega arith)
pow_shift (suc (suc (suc b))) h =
    let e : suc (suc (suc b)) - 3 ≡ b = omega arith in
    rw e (omega (arith, pow-suc 2 (suc (suc b)), pow-suc 2 (suc b), pow-suc 2 b))

pub class_shift : Inode → User → ℕ
class_shift i u = if u.uid == i.uid then 0 else if u.gid == i.gid then 3 else 6

class_bits-has_bit :
    (i : Inode) (u : User) (b : ℕ)
    → 6 ≤ b
    → not (bit_and i.mode (class_bits i (2 ^ b) u) == 0) ≡ has_bit i.mode (b - class_shift i u)
unfolding class_bits class_shift has_bit
class_bits-has_bit i u b h =
    let three : 2 ^ b / 8 ≡ 2 ^ (b - 3) = pow_shift b (omega arith) in
    let six : 2 ^ b / 8 / 8 ≡ 2 ^ (b - 6) =
      ap (λ z. z / 8) three
      ∙ pow_shift (b - 3) (omega arith)
      ∙ ap (λ z. 2 ^ z) (let e : b - 3 - 3 ≡ b - 6 = omega arith in e) in
    let zero_shift : b - 0 ≡ b = omega arith in
    elim (Bool-cases (u.uid == i.uid)) [
      | inl t ↦ rw (t, zero_shift) refl
      | inr f ↦ elim (Bool-cases (u.gid == i.gid)) [
        | inl g ↦ rw (f, g, three) refl
        | inr g ↦ rw (f, g, six) refl
      ]
    ]

-- The super-user's test for a program: any of the three bits.
pub any_exec : ℕ → ℕ → Bool
any_exec mode x = has_bit mode x || has_bit mode (x - 3) || has_bit mode (x - 6)

any_exec_lem :
    (mode x : ℕ)
    → 6 ≤ x
    → mode < 2 ^ 16
    → (bit_and mode (bit_or (2 ^ x) (bit_or (2 ^ x / 8) (2 ^ x / 64))) == 0) ≡ not (any_exec mode x)
unfolding any_exec has_bit
any_exec_lem mode x h small =
    let three : 2 ^ x / 8 ≡ 2 ^ (x - 3) = pow_shift x (omega arith) in
    let six : 2 ^ x / 64 ≡ 2 ^ (x - 6) =
      (let e : 2 ^ x / 64 ≡ 2 ^ x / 8 / 8 = omega arith in e)
      ∙ ap (λ z. z / 8) three
      ∙ pow_shift (x - 3) (omega arith)
      ∙ ap (λ z. 2 ^ z) (let e : x - 3 - 3 ≡ x - 6 = omega arith in e) in
    rw (three, six)
      (let (l, r) = and_or_zero 16 mode (2 ^ x) (bit_or (2 ^ (x - 3)) (2 ^ (x - 6))) small in
        let (l', r') = and_or_zero 16 mode (2 ^ (x - 3)) (2 ^ (x - 6)) small in ground arith)

-- Whether the mode, the user and the file system allow the access of bit `b`, where `w` is the bit for
-- writing and `x` that for execution, and the error where they do not.
abbrev pub allowed : Conf → Bool → Inode → ℕ → ℕ → ℕ → User → Bool
allowed c ronly i b w x u =
    not (b == w && (ronly || not (bit_and i.flag c.itext == 0)))
    && (if u.uid == 0
        then not (b == x) || any_exec i.mode x
        else has_bit i.mode (b - class_shift i u))

abbrev pub refusal : Bool → ℕ → ℕ → Conf → Inode → Error
refusal ronly b w c i =
    if b == w && ronly
    then erofs
    else if b == w && not (bit_and i.flag c.itext == 0)
    then etxtbsy
    else eacces

-- For a mode of one bit, with the modes for the group and for the others three and six bits below the
-- owner's: a user gets what the bit of the first class says that the user is in. The super-user gets
-- everything but the execution of what nobody may execute. Nobody writes to a text in use or to a file
-- system that is mounted for reading only. A refusal leaves the error for its reason, and a grant leaves
-- the user as it is.
pub access_lem :
    (c : Conf) (ronly : Bool) (i : Inode) (b w x : ℕ) (u : User)
    → c.iwrite ≡ 2 ^ w
    → c.iexec ≡ 2 ^ x
    → 6 ≤ b
    → 6 ≤ x
    → i.mode < 2 ^ 16
    → access c ronly i (2 ^ b) u
      ≡ (if allowed c ronly i b w x u then (false, u) else (true, fail (refusal ronly b w c i) u))
unfolding access
access_lem c ronly i b w x u write exec hb hx small =
    rw
      (
        write,
        exec,
        pow-eq b w,
        pow-eq b x,
        any_exec_lem i.mode x hx small,
        class_bits-has_bit i u b hb,
      )
      (ground arith)
