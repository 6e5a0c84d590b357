-- ===== src/Setup/Tests.antt =====
-- Runs of pkg/setup at concrete inputs.
mod Visors
use skywire_mainnet_old.Base.{
  ℕ, ◌+◌, ◌≤◌, ◌<◌, ◌≡◌, refl, ap, zero, suc, ◌∙◌, false, Bool, Bytes, List, [], ◌∷◌, ◌++◌, Outcome,
  ok, err, panic, Option, none, some, replicate, ◌>>=◌, ◌%◌, ◌^◌, ◌≢◌, length, length-replicate,
  pos, lookup, arith, if◌then◌else◌, nat_beq, take, drop, eof, closed_pipe, empty_packet, Error,
  Distinct, list_eq, list_beq, nat_eq,
}
use skywire_mainnet_old.Routing.Addr.{PubKey, RouteId, Route, LoopDescriptor}
use skywire_mainnet_old.Routing.Rule.{Rule}
use skywire_mainnet_old.Setup.Rules.{IdReservoir, new_id_reservoir, reserve_ids}
use skywire_mainnet_old.Setup.Rules.Trace.{left, demand}
use skywire_mainnet_old.Setup.Rules.Supply.{
  RouteDone, IsSupplied, visors, save_forward_rules-RouteDone,
}
use skywire_mainnet_old.Setup.Rules.Counts.{counted, all_visors, Grants, reserve_ids_supply}
use skywire_mainnet_old.Setup.Rules.Generate.{IsDescriptor, RulesDone}
use skywire_mainnet_old.Setup.Rules.Whole.{create_loop_rules}
use skywire_mainnet_old.Setup.Protocol.{
  Conn, packet_bytes, read_packet, success_packet, request_route_ids, add_rules,
  request_route_id_packet,
}
use skywire_mainnet_old.Setup.Protocol.Framing.{
  read_packet-packet_bytes, read_packet_cut, packet_bytes-row,
}
use skywire_mainnet_old.Setup.Protocol.Requests.{
  request_route_ids_exact, request_route_ids_answered, add_rules_closed_pipe,
}
use skywire_mainnet_old.Setup.Json.{Json, IsFaithful}

abbrev pub key_a : PubKey
key_a = replicate 33 1

abbrev pub key_b : PubKey
key_b = replicate 33 2

abbrev uuid : Bytes
uuid = replicate 16 7

abbrev pub there : Route
there = record { from = key_a; to = key_b; transport = uuid } ∷ []

abbrev pub back : Route
back = record { from = key_b; to = key_a; transport = uuid } ∷ []

abbrev pub descriptor : LoopDescriptor
descriptor = record {
  loop = record {
    local = record { pub_key = key_a; port = 3 };
    remote = record { pub_key = key_b; port = 4 };
  };
  forward = there;
  reverse = back;
  keep_alive = pos 60;
}

descriptor-IsDescriptor : IsDescriptor descriptor
descriptor-IsDescriptor = record {
  forward_hops = tt;
  reverse_hops = tt;
  forward_ids = (refl, tt);
  reverse_ids = (refl, tt);
  src_key = refl;
  dst_key = refl;
}

-- Each visor hands out as many IDs as it is asked for, all of them 5.
abbrev hand_out : PubKey → ℕ → Outcome (List RouteId)
hand_out pk n = ok (replicate n 5)

hand_out-Grants : Grants hand_out
hand_out-Grants = record {
  granted = λ pk n. replicate n 5;
  answers = λ pk n. refl;
  exact = λ pk n. length-replicate n 5;
}

few_passes : (pk : PubKey) → demand pk (all_visors (there ∷ back ∷ [])) < 256
few_passes pk = ground arith

create_loop_rules_example :
    ((reserve_ids hand_out (new_id_reservoir (there ∷ back ∷ [])).0).1 ≡ ok tt)
    × (d : RulesDone descriptor (reserve_ids hand_out (new_id_reservoir (there ∷ back ∷ [])).0).0)
    × ((pk : PubKey) → left pk d.generated.left_over ≡ [])
create_loop_rules_example =
    create_loop_rules hand_out descriptor hand_out-Grants descriptor-IsDescriptor few_passes

abbrev stock : IdReservoir
stock = record { rec = []; ids = (key_a, 5 ∷ 8 ∷ []) ∷ (key_b, 6 ∷ 7 ∷ []) ∷ [] }

stock-IsSupplied : IsSupplied (visors there) stock
stock-IsSupplied pk = unfold lookup in ground arith

save_forward_rules-RouteDone_example : RouteDone (pos 60) there [] stock
save_forward_rules-RouteDone_example =
    save_forward_rules-RouteDone (pos 60) there [] stock tt (refl, tt) stock-IsSupplied

read_packet-packet_bytes_example :
    (packet_bytes 3 (1 ∷ 2 ∷ []) >>= λ raw. read_packet eof (raw ++ 9 ∷ []))
    ≡ (if nat_beq 2 0 then err empty_packet else ok (3, 1 ∷ 2 ∷ [], 9 ∷ []))
read_packet-packet_bytes_example =
    read_packet-packet_bytes eof 3 (1 ∷ 2 ∷ []) (9 ∷ []) (omega arith) (omega arith)

long_payload : Bytes
long_payload = replicate 65537 1

length-long_payload : length long_payload ≡ 65537
unfolding long_payload
length-long_payload = length-replicate {A = ℕ} 65537 1

-- An encoding for the runs: a list of byte strings has its bytes plus one, and 0 at the end of each.
unfoldable pub enc_rules : List Rule → Bytes
enc_rules [] = []
enc_rules ([] ∷ rules) = 0 ∷ enc_rules rules
enc_rules ((b ∷ rule) ∷ rules) = suc b ∷ enc_rules (rule ∷ rules)

abbrev push : ℕ → List Rule → List Rule
push b [] = (b ∷ []) ∷ []
push b (rule ∷ rules) = (b ∷ rule) ∷ rules

unfoldable pub dec_rules : Bytes → List Rule
dec_rules [] = []
dec_rules (zero ∷ xs) = [] ∷ dec_rules xs
dec_rules (suc b ∷ xs) = push b (dec_rules xs)

dec_rules-enc_rules : (rules : List Rule) → dec_rules (enc_rules rules) ≡ rules
unfolding dec_rules enc_rules
dec_rules-enc_rules [] = refl
dec_rules-enc_rules ([] ∷ rules) = ap (◌∷◌ []) (dec_rules-enc_rules rules)
dec_rules-enc_rules ((b ∷ rule) ∷ rules) = ap (push b) (dec_rules-enc_rules (rule ∷ rules))

abbrev first_of : Bytes → Option ℕ
first_of [] = none
first_of (b ∷ bs) = some b

abbrev rest_of : Bytes → Option Bytes
rest_of [] = none
rest_of (b ∷ bs) = some bs

abbrev rules_in : Bytes → Option (List Rule)
rules_in [] = none
rules_in (b ∷ bs) = some (dec_rules bs)

abbrev pub codec : Json
codec = record {
  marshal_count = λ n. n ∷ [];
  unmarshal_count = first_of;
  marshal_ids = λ ids. 0 ∷ ids;
  unmarshal_ids = rest_of;
  marshal_rules = λ rules. 0 ∷ enc_rules rules;
  unmarshal_rules = rules_in;
  marshal_loop_data = λ ld. [];
  unmarshal_loop_data = λ b. none;
  marshal_descriptor = λ ld. [];
  unmarshal_descriptor = λ b. none;
  marshal_null = 0 ∷ [];
  marshal_message = λ e. 0 ∷ [];
}

pub codec-IsFaithful : IsFaithful codec
codec-IsFaithful = record {
  count_back = λ n small. refl;
  ids_back = λ ids. refl;
  rules_back = λ rules. ap some (dec_rules-enc_rules rules);
  count_nonempty = λ n. omega arith;
  ids_nonempty = λ ids. omega arith;
  rules_nonempty = λ rules. omega arith;
}

-- A peer that has answered with the IDs 5 and 6.
abbrev pub answered : Conn
answered = record { input = 255 ∷ 0 ∷ 3 ∷ 0 ∷ 5 ∷ 6 ∷ []; at_end = eof; output = [] }

answer-packet : packet_bytes success_packet (0 ∷ 5 ∷ 6 ∷ []) ≡ ok (255 ∷ 0 ∷ 3 ∷ 0 ∷ 5 ∷ 6 ∷ [])
answer-packet =
    packet_bytes-row success_packet (0 ∷ 5 ∷ 6 ∷ [])
    ∙ unfold skywire_mainnet_old.Base.be_bytes in refl

answered_run : (c' : Conn) × (request_route_ids codec false 2 answered ≡ ok (c', 5 ∷ 6 ∷ []))
answered_run =
    request_route_ids_answered codec answered (5 ∷ 6 ∷ []) (255 ∷ 0 ∷ 3 ∷ 0 ∷ 5 ∷ 6 ∷ []) []
      codec-IsFaithful answer-packet refl (omega arith)

request_route_ids_exact_example :
    (length {A = ℕ} (5 ∷ 6 ∷ []) ≡ 2)
    × (raw : Bytes) × (packet_bytes request_route_id_packet (2 ∷ []) ≡ ok raw)
    × (answered_run.0.output ≡ [] ++ raw)
request_route_ids_exact_example =
    request_route_ids_exact codec false 2 answered answered_run.0 (5 ∷ 6 ∷ []) answered_run.1

abbrev silent : Conn
silent = record { input = []; at_end = closed_pipe; output = [] }
