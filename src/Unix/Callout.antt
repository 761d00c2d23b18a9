-- ===== src/Unix/Callout.antt =====
-- unix/kernel/ken/clock.c: the callout table, `timeout` and the part of `clock` that runs callouts.
-- The table is the list of its entries in front of the first with `c_func == 0`; the time of an
-- entry is counted from the entry before it. A time is a natural number: each subtraction below
-- stands behind the code's own test that it does not fall below 0. The size of the array is in a
-- header that the repository does not hold, and the code does not test it. A function that is asked for
-- is not 0, which would end the table.
pub mod Agenda
pub mod Fire
pub mod Loop
pub mod Refine
use linuxab.Prelude.{
  ℕ, zero, suc, ◌+◌, ◌-◌, Bool, true, false, Option, none, some, List, [], ◌∷◌, ◌++◌, leb, ◌==◌,
  if◌then◌else◌, get_elem?, drop,
}

-- `struct callo`
pub record Callo : Type 0 where
  pub time : ℕ
  pub func : ℕ
  pub arg : ℕ

abbrev pub Table : Type 0
Table = List Callo

-- The arguments of a call of `timeout`.
pub record Request : Type 0 where
  pub func : ℕ
  pub arg : ℕ
  pub tim : ℕ

-- `timeout(fun, arg, tim)`: the first loop takes the times that it passes off `t`; the entry that it
-- stops at loses what is left of `t`; the second loop moves that entry and the rest up by one.
pub timeout : ℕ → ℕ → ℕ → Table → Table
timeout fun arg t [] = record { time = t; func = fun; arg = arg } ∷ []
timeout fun arg t (p ∷ ps) =
    let later = timeout fun arg (t - p.time) ps in
    if leb p.time t
    then p ∷ later
    else record { time = t; func = fun; arg = arg } ∷ record p { time = p.time - t } ∷ ps

-- `while(p2->c_time<=0 && p2->c_func!=0) p2++; p2->c_time--;`
pub count_down : Table → Table
count_down [] = []
count_down (p ∷ ps) =
    if leb p.time 0 then p ∷ count_down ps else record p { time = p.time - 1 } ∷ ps

pub request_all : Table → List Request → Table
request_all ps [] = ps
request_all ps (r ∷ rs) = request_all (timeout r.func r.arg r.tim ps) rs

-- A function that is called back may call `timeout`. What it asks for is a parameter.
module _ (calls : ℕ → ℕ → List Request) where
  -- `while(p1->c_func != 0 && p1->c_time <= 0) { (*p1->c_func)(p1->c_arg); p1++; }`: the calls made,
  -- the table, and where `p1` stops. `none` is fuel that has run out.
  pub fire_loop : ℕ → Table → ℕ → Option (List (ℕ × ℕ) × Table × ℕ)
  fire_loop zero ps p1 = none
  fire_loop (suc fuel) ps p1 = elim (get_elem? ps p1) [
    | none ↦ some ([], ps, p1)
    | some p ↦ elim (leb p.time 0) [
      | true ↦ elim (fire_loop fuel (request_all ps (calls p.func p.arg)) (p1 + 1)) [
        | none ↦ none
        | some (log, ps', end) ↦ some ((p.func, p.arg) ∷ log, ps', end)
      ]
      | false ↦ some ([], ps, p1)
    ]
  ]

  -- The callouts of `clock`: `high` is `(ps&0340) != 0`. The entries from `p1` on are moved to the
  -- front of the table.
  pub run_callouts : ℕ → Bool → Table → Option (List (ℕ × ℕ) × Table)
  run_callouts fuel high [] = some ([], [])
  run_callouts fuel high (p ∷ ps) =
      let table = count_down (p ∷ ps) in
      if high then some ([], table) else elim (fire_loop fuel table 0) [
        | none ↦ none
        | some (log, ps', end) ↦ some (log, drop end ps')
      ]
