-- ===== src/Types/Text/Reverse.antt =====
-- The loop that turns the digits round in place computes the reversed list.
use linuxab.Prelude.{
  ℕ, zero, suc, ◌+◌, ◌-◌, ◌*◌, ◌≤◌, ◌<◌, ◌≡◌, refl, sym, ap, ◌∙◌, subst, false, [], ◌∷◌, ◌++◌,
  arith, ltb, length, set, get_or, length-append, get_or-append, set-append, split_last, lt→ltb,
}
use mathlib.Core.List.{reverse, append_assoc, append-nil, reverse-append, reverse-cons}
use mathlib.Core.Path.{ap₂}
use linuxab.Types.Text.{Text, reverse_loop, reverse_buffer}

loop_stop : (fuel : ℕ) (buf : Text) (p1 p2 : ℕ) → p2 ≤ p1 → reverse_loop fuel buf p1 p2 ≡ buf
unfolding reverse_loop
loop_stop zero buf p1 p2 h = refl
loop_stop (suc fuel) buf p1 p2 h = let stop : ltb p1 p2 ≡ false = ground arith in rw stop

loop_swap :
    (fuel : ℕ) (buf : Text) (p1 p2 : ℕ)
    → p1 < p2
    → reverse_loop (suc fuel) buf p1 p2
      ≡ reverse_loop fuel
          (set (set buf p1 (get_or buf p2 0)) p2 (get_or buf p1 0))
          (p1 + 1)
          (p2 - 1)
unfolding reverse_loop
loop_swap fuel buf p1 p2 h = rw (lt→ltb p1 p2 h)

-- The two writes of a round exchange the ends of the part still to turn.
swap_ends :
    (pre m post : Text) (x y p2 : ℕ)
    → p2 ≡ length pre + 1 + length m
    → let buf = pre ++ (x ∷ (m ++ (y ∷ post))) in
      set (set buf (length pre) (get_or buf p2 0)) p2 (get_or buf (length pre) 0)
      ≡ pre ++ (y ∷ (m ++ (x ∷ post)))
swap_ends [] m post x y zero e = absurd (omega arith)
swap_ends [] m post x y (suc k) e =
    let at : k ≡ length m = omega arith in
    rw at (ap₂ ◌∷◌ (get_or-append m y post 0) (set-append m y x post))
swap_ends (p ∷ pre) m post x y zero e = absurd (omega arith)
swap_ends (p ∷ pre) m post x y (suc k) e =
    ap (λ t. p ∷ t) (swap_ends pre m post x y k (omega arith))

-- A round, and then the rest of the loop on what lies between the ends.
reverse_round :
    (fuel : ℕ) (pre m post : Text) (x y p2 : ℕ)
    → p2 ≡ length pre + 1 + length m
    → reverse_loop fuel ((pre ++ (y ∷ [])) ++ (m ++ (x ∷ post))) (length (pre ++ (y ∷ []))) (p2 - 1)
      ≡ (pre ++ (y ∷ [])) ++ (reverse m ++ (x ∷ post))
    → reverse_loop (suc fuel) (pre ++ ((x ∷ (m ++ (y ∷ []))) ++ post)) (length pre) p2
      ≡ pre ++ (reverse (x ∷ (m ++ (y ∷ []))) ++ post)
reverse_round fuel pre m post x y p2 e rest =
    ap (λ t. reverse_loop (suc fuel) (pre ++ (x ∷ t)) (length pre) p2)
      (append_assoc m (y ∷ []) post)
    ∙ loop_swap fuel (pre ++ (x ∷ (m ++ (y ∷ post)))) (length pre) p2 (omega arith)
    ∙ ap₂ (λ t k. reverse_loop fuel t k (p2 - 1))
        (swap_ends pre m post x y p2 e ∙ sym (append_assoc pre (y ∷ []) (m ++ (x ∷ post))))
        (omega (arith, length-append pre (y ∷ [])))
    ∙ rest
    ∙ append_assoc pre (y ∷ []) (reverse m ++ (x ∷ post))
    ∙ ap (λ t. pre ++ t) turned
  where
    turned : y ∷ (reverse m ++ (x ∷ post)) ≡ reverse (x ∷ (m ++ (y ∷ []))) ++ post
    turned = simp (reverse-cons, reverse-append, append_assoc)

reverse_loop_lem :
    (fuel : ℕ) (pre mid post : Text) (p2 : ℕ)
    → length mid ≤ 2 * fuel + 1
    → p2 ≡ length pre + length mid - 1
    → reverse_loop fuel (pre ++ (mid ++ post)) (length pre) p2 ≡ pre ++ (reverse mid ++ post)
reverse_loop_lem fuel pre [] post p2 h e = loop_stop fuel _ (length pre) p2 (omega arith)
reverse_loop_lem fuel pre (x ∷ []) post p2 h e = loop_stop fuel _ (length pre) p2 (omega arith)
reverse_loop_lem zero pre (x ∷ z ∷ r) post p2 h e = absurd (omega arith)
reverse_loop_lem (suc fuel) pre (x ∷ z ∷ r) post p2 h e =
    let (m, y, last) = split_last z r in
    let len : suc (length r) ≡ length m + 1 = ap length last ∙ length-append m (y ∷ []) in
    subst
      (λ (t : Text).
        reverse_loop (suc fuel) (pre ++ ((x ∷ t) ++ post)) (length pre) p2
        ≡ pre ++ (reverse (x ∷ t) ++ post))
      (sym last)
      (reverse_round fuel pre m post x y p2 (omega (arith, len)) (
        reverse_loop_lem fuel (pre ++ (y ∷ [])) m (x ∷ post) (p2 - 1) (omega (arith, len))
          (omega (arith, len, length-append pre (y ∷ [])))))

pub reverse_buffer-reverse : (buf : Text) → reverse_buffer buf ≡ reverse buf
unfolding reverse_buffer
reverse_buffer-reverse buf =
    ap (λ t. reverse_loop (length buf) t 0 (length buf - 1)) (sym (append-nil buf))
    ∙ reverse_loop_lem (length buf) [] buf [] (length buf - 1) (omega arith) (omega arith)
    ∙ append-nil (reverse buf)
