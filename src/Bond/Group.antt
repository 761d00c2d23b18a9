-- ===== src/Bond/Group.antt =====
-- servers/bond_3ad.c: ad_port_selection_logic, which puts a port on the list of an aggregator. A port and
-- an aggregator are addresses, and each slave has one of either. The list of an aggregator's ports
-- stands for `lag_ports` and the chain of `next_port_in_aggregator` behind it, which is NULL for a port
-- on no list. The admin keys and what the drivers say of the links are arguments.
pub mod Choose
pub mod Lists
pub mod Others
pub mod Keeps
pub mod Enough
pub mod Fits
pub mod Outcome
use linuxab.Prelude.{
  ℕ, ◌+◌, ◌%◌, Bool, true, false, ◌&&◌, ◌||◌, not, Option, none, some, List, [], ◌∷◌, map, ◌==◌,
  if◌then◌else◌,
}
use linuxab.Prelude.Distinct.{without}
use linuxab.Bond.Port.{Port, set_selected}
use linuxab.Bond.Mux.{World, Aggregator, SlaveFlags, set_port, share_ready}
use linuxab.Bond.Mux.Ready.{member}
use linuxab.Bond.Speed.{Lane}
use linuxab.Bond.Select.{AdSelect, Agg, Selection, ad_agg_selection_logic}

-- `struct aggregator`. `partner_system` is 0 for the address of zeros.
pub record Lag : Type 0 where
  pub aggregator_identifier : ℕ
  pub is_individual : Bool
  pub actor_admin_aggregator_key : ℕ
  pub actor_oper_aggregator_key : ℕ
  pub partner_system : ℕ
  pub partner_system_priority : ℕ
  pub partner_oper_aggregator_key : ℕ
  pub receive_state : ℕ
  pub transmit_state : ℕ
  pub lag_ports : List ℕ
  pub num_of_ports : ℕ
  pub is_active : Bool

-- The ports and slaves, the aggregators, and of each port its aggregator and
-- `actor_port_aggregator_identifier`.
pub record Bond (S : Type 0) : Type 0 where
  pub world : World S
  pub lags : ℕ → Lag
  pub aggregator : ℕ → Option ℕ
  pub identifier : ℕ → ℕ

unfoldable pub ad_clear_agg : Lag → Lag
ad_clear_agg g = record g {
  is_individual = false;
  actor_admin_aggregator_key = 0;
  actor_oper_aggregator_key = 0;
  partner_system = 0;
  partner_system_priority = 0;
  partner_oper_aggregator_key = 0;
  receive_state = 0;
  transmit_state = 0;
  lag_ports = [];
  is_active = false;
  num_of_ports = 0;
}

abbrev pub is_empty : List ℕ → Bool
is_empty [] = true
is_empty (x ∷ xs) = false

abbrev pub set_lag : {S : Type 0} → ℕ → Lag → Bond S → Bond S
set_lag g l s = record s { lags = λ i. if g == i then l else s.lags i }

abbrev pub set_aggregator : {S : Type 0} → ℕ → Option ℕ → ℕ → Bond S → Bond S
set_aggregator a g id s = record s {
  aggregator = λ i. if a == i then g else s.aggregator i;
  identifier = λ i. if a == i then id else s.identifier i;
}

-- The aggregator without the port, cleared if that was the last one.
unfoldable pub left_lag : ℕ → Lag → Lag
left_lag a l =
    let rest = without a l.lag_ports in
    let l1 = record l { lag_ports = rest; num_of_ports = (l.num_of_ports + 65535) % 65536 } in
    if is_empty rest then ad_clear_agg l1 else l1

-- A port that is on no list of its aggregator is only warned of.
pub leave : {S : Type 0} → ℕ → Bond S → Bond S
leave a s = elim (s.aggregator a) [
  | none ↦ s
  | some g ↦
      if member a (s.lags g).lag_ports
      then set_lag g (left_lag a (s.lags g)) (set_aggregator a none 0 s)
      else s
]

-- Whether an aggregator that has ports suits the port.
unfoldable pub suits : Lag → Port → Bool
suits l p =
    l.actor_oper_aggregator_key == p.actor_oper_port_key
    && (l.partner_system == p.partner_oper.system
        && (l.partner_system_priority == p.partner_oper.system_priority
            && (l.partner_oper_aggregator_key == p.partner_oper.key
                && (not (l.partner_system == 0) && not l.is_individual))))

-- The loop over the slaves: the aggregator found, and the first one without ports before it.
unfoldable pub search_lags : List ℕ → (ℕ → Lag) → Port → Option ℕ → Option ℕ × Option ℕ
search_lags [] lags p free = (none, free)
search_lags (i ∷ slaves) lags p free =
    let skip = search_lags slaves lags p (elim free [ none ↦ some i | some f ↦ some f ]) in
    let next = search_lags slaves lags p free in
    if is_empty (lags i).lag_ports then skip else if suits (lags i) p then (some i, free) else next

-- The aggregator with the port put first.
unfoldable pub joined_lag : ℕ → Lag → Lag
joined_lag a l = record l {
  lag_ports = a ∷ l.lag_ports;
  num_of_ports = (l.num_of_ports + 1) % 65536;
}

-- A free aggregator, made one for the port. Bit 0 of a key is that of the duplex.
unfoldable pub founded_lag : ℕ → Port → ℕ → Lag → Lag
founded_lag admin_key p a l = record l {
  is_individual = not (p.actor_oper_port_key % 2 == 1);
  actor_admin_aggregator_key = admin_key;
  actor_oper_aggregator_key = p.actor_oper_port_key;
  partner_system = p.partner_oper.system;
  partner_system_priority = p.partner_oper.system_priority;
  partner_oper_aggregator_key = p.partner_oper.key;
  receive_state = 1;
  transmit_state = 1;
  lag_ports = a ∷ [];
  num_of_ports = (l.num_of_ports + 1) % 65536;
}

-- The port `a` is put on the list of `g`, which is `l` by now, and selected.
unfoldable pub enlist : {S : Type 0} → ℕ → ℕ → Lag → Bond S → Bond S
enlist a g l s =
    let s1 = set_lag g l (set_aggregator a (some g) (s.lags g).aggregator_identifier s) in
    record s1 { world = set_port a (set_selected true (s.world.ports a)) s.world }

-- The two parts of the logic that choose: the aggregator, if there is one, and the bond.
pub choose_lag : {S : Type 0} → List ℕ → (ℕ → ℕ) → ℕ → Bond S → Option ℕ × Bond S
choose_lag slaves admin_key a s =
    let s1 = leave a s in
    let p = s1.world.ports a in
    let r = search_lags slaves s1.lags p none in
    elim (r.0) [
      | some g ↦ (some g, enlist a g (joined_lag a (s1.lags g)) s1)
      | none ↦ elim (r.1) [
        | some g ↦ (some g, enlist a g (founded_lag (admin_key a) p a (s1.lags g)) s1)
        | none ↦ (none, s1)
      ]
    ]

module _ {S : Type 0} (flags : SlaveFlags S) (mode : AdSelect) (slaves : List ℕ)
    (links : ℕ → Lane) where
  -- What the choice of the active aggregator sees of an aggregator.
  abbrev pub lane_of : Bond S → ℕ → Lane
  lane_of s a =
      let p = s.world.ports a in
      record (links a) { is_enabled = p.is_enabled; port_priority = p.actor_port_priority }

  abbrev pub agg_of : Bond S → ℕ → Agg
  agg_of s g =
      let l = s.lags g in
      record {
        is_active = l.is_active;
        is_individual = l.is_individual;
        partner_system = l.partner_system;
        actor_oper_aggregator_key = l.actor_oper_aggregator_key;
        lag_ports = map (lane_of s) l.lag_ports;
      }

  -- `__disable_port` and `__enable_port` of each port of a list
  pub disable_ports : List ℕ → (ℕ → S) → ℕ → S
  disable_ports [] f = f
  disable_ports (a ∷ l) f = disable_ports l (λ i. if a == i then flags.set_inactive (f a) else f i)

  pub enable_ports : List ℕ → (ℕ → S) → ℕ → S
  enable_ports [] f = f
  enable_ports (a ∷ l) f =
      enable_ports l
        (λ i. if a == i then (if flags.is_up (f a) then flags.set_active (f a) else f a) else f i)

  pub ports_of : Bond S → Option ℕ → List ℕ
  ports_of s none = []
  ports_of s (some g) = (s.lags g).lag_ports

  -- The choice of the active aggregator, with what it writes.
  unfoldable pub select_active : Bond S → Bond S
  select_active s =
      let sel = ad_agg_selection_logic mode slaves (agg_of s) s.world.update_slave_arr in
      record s {
        lags = λ i. record (s.lags i) { is_active = (sel.aggs i).is_active };
        world = record s.world {
          slaves =
              enable_ports (ports_of s sel.enabled)
                (disable_ports (ports_of s sel.disabled) s.world.slaves);
          update_slave_arr = sel.update_slave_arr;
        };
      }

  abbrev pub view : Lag → Aggregator
  view l = record {
    is_active = l.is_active;
    partner_system = l.partner_system;
    lag_ports = l.lag_ports;
  }

  -- The end of the logic, for a port that has found the aggregator `g`.
  unfoldable pub settle : ℕ → ℕ → Bond S → Bond S
  settle g a s =
      let s1 = select_active (record s { world = share_ready (view (s.lags g)) s.world }) in
      let p = s1.world.ports a in
      let out = record p {
        actor_oper_port_state = record p.actor_oper_port_state { synchronization = false };
      } in
      if (s1.lags g).is_active then s1 else record s1 { world = set_port a out s1.world }

  pub ad_port_selection_logic : (ℕ → ℕ) → ℕ → Bond S → Bond S
  ad_port_selection_logic admin_key a s =
      let r = choose_lag slaves admin_key a s in
      if (s.world.ports a).sm_vars.selected
      then s
      else elim (r.0) [ none ↦ r.1 | some g ↦ settle g a (r.1) ]
