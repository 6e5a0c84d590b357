-- ===== src/Router/Tests/Way.antt =====
-- A packet over two hops.
use skywire_mainnet_old.Base.{
  ℕ, ◌+◌, ◌^◌, ◌<◌, ◌≡◌, refl, Bytes, List, [], ◌∷◌, ◌++◌, ok, replicate, lookup, arith, pos,
}
use skywire_mainnet_old.Routing.Addr.{RouteId, Hop, PubKey, Route}
use skywire_mainnet_old.Routing.Rule.{Rule, keep_alive, new_forward_rule}
use skywire_mainnet_old.Routing.Table
use skywire_mainnet_old.Router.State.{State}
use skywire_mainnet_old.Router.Packets.Handling.{IsUsable}
use skywire_mainnet_old.Router.Packets.Relay.{Visors, carry, carry_along}
use skywire_mainnet_old.Router.Tests.Requests.{parse}
use skywire_mainnet_old.Router.Tests.Traffic.{outside, own_key}

abbrev uuid : Bytes
uuid = replicate 16 7

abbrev hop_rule : RouteId → RouteId → Rule
hop_rule next id =
    (0 ∷ 0 ∷ 0 ∷ 0 ∷ 0 ∷ 0 ∷ 0 ∷ 5 ∷ 1 ∷ 0 ∷ 0 ∷ 0 ∷ next ∷ [])
    ++ (uuid ++ (replicate 21 0 ++ (0 ∷ 0 ∷ 0 ∷ id ∷ [])))

-- A visor with one rule.
abbrev visor_with : RouteId → Rule → State
visor_with id rule = record {
  host = record {
    pm = record { min_port = 10; ports = [] };
    static_ports = [];
    sent = [];
    forwarded = [];
  };
  rt = record {
    table = record { next_id = 10; rules = (id, rule) ∷ [] };
    activity = (id, 100) ∷ [];
  };
}

alive_4 : keep_alive (hop_rule 7 4) ≡ ok (pos 5)
unfolding keep_alive skywire_mainnet_old.Base.read_be skywire_mainnet_old.Base.slice
    skywire_mainnet_old.Base.from_be
alive_4 = refl

alive_7 : keep_alive (hop_rule 9 7) ≡ ok (pos 5)
unfolding keep_alive skywire_mainnet_old.Base.read_be skywire_mainnet_old.Base.slice
    skywire_mainnet_old.Base.from_be
alive_7 = refl

made_4 : new_forward_rule (pos 5) 7 uuid 4 ≡ ok (hop_rule 7 4)
unfolding new_forward_rule skywire_mainnet_old.Base.put_be skywire_mainnet_old.Base.be_bytes
made_4 = refl

made_7 : new_forward_rule (pos 5) 9 uuid 7 ≡ ok (hop_rule 9 7)
unfolding new_forward_rule skywire_mainnet_old.Base.put_be skywire_mainnet_old.Base.be_bytes
made_7 = refl

rule_4-IsUsable : IsUsable (visor_with 4 (hop_rule 7 4)).rt 104 4 (hop_rule 7 4)
rule_4-IsUsable = record {
  last = 100;
  kept = 5;
  active = record {
    stored = unfold Table.find_rule lookup in refl;
    used = unfold lookup in refl;
    kept = alive_4;
  };
  past = omega arith;
  in_time = omega arith;
  long = omega arith;
}

rule_7-IsUsable : IsUsable (visor_with 7 (hop_rule 9 7)).rt 104 7 (hop_rule 9 7)
rule_7-IsUsable = record {
  last = 100;
  kept = 5;
  active = record {
    stored = unfold Table.find_rule lookup in refl;
    used = unfold lookup in refl;
    kept = alive_7;
  };
  past = omega arith;
  in_time = omega arith;
  long = omega arith;
}

abbrev hop : PubKey → PubKey → Hop
hop a b = record { from = a; to = b; transport = uuid }

abbrev route : Route
route = hop (1 ∷ []) (2 ∷ []) ∷ hop (2 ∷ []) (3 ∷ []) ∷ []

abbrev visors : Visors
visors = (outside, visor_with 4 (hop_rule 7 4)) ∷ (outside, visor_with 7 (hop_rule 9 7)) ∷ []

carry_along_example : carry parse own_key 104 visors route 4 (8 ∷ 8 ∷ []) ≡ ok (9, 8 ∷ 8 ∷ [])
carry_along_example =
    carry_along parse own_key 104 (pos 5) (8 ∷ 8 ∷ []) visors route 4 (7 ∷ 9 ∷ [])
      ((1 ∷ [], hop_rule 7 4) ∷ (2 ∷ [], hop_rule 9 7) ∷ []) (omega arith) (omega arith)
      (refl, (refl, tt)) (refl, made_4, (refl, made_7, tt))
      (
        omega arith,
        rule_4-IsUsable,
        refl,
        refl,
        (omega arith, rule_7-IsUsable, refl, refl, omega arith),
      )
