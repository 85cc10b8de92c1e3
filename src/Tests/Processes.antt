-- ===== src/Tests/Processes.antt =====
-- The theorems about the worker and about the client's calls at concrete inputs.
use sqpkv.Prelude.{◌≡◌, refl, none, some, [], ◌∷◌, arith}
use sqpkv.Packet.Wire.{Request, put, request_wire}
use sqpkv.KvRequestHandler.Serve.{serve}
use sqpkv.KvWorker.{crashed, handle_client}
use sqpkv.KvWorker.Faults.{handle_client-crashed}
use sqpkv.Connection.{value_of, take_exchange, status_exchange}
use sqpkv.Connection
use sqpkv.Connection.Answers.{calls-fault}
use sqpkv.Tests.Toy.{toy, toy_laws, both, key_1, value_a}
use sqpkv.Tests.Net.{toy_net, toy_arrived}

abbrev put_b : Request
put_b = put key_1 (b'b' ∷ [])

handle_client-crashed_example :
    handle_client toy toy_net 1 3 3 (request_wire put_b, []) 0 both
    ≡ crashed (some (b'b' ∷ []), some [])
unfolding request_wire serve
handle_client-crashed_example =
    handle_client-crashed toy toy_laws toy_net 0 toy_arrived 0 0 3 put_b (request_wire put_b, [])
      both refl (omega arith) (omega arith)

calls-fault_example :
    (Connection.get toy_net 3 ([], []) 0 key_1 value_a ≡ none)
    × (Connection.put toy_net 3 ([], []) 0 key_1 value_a ≡ none)
    × (Connection.delete toy_net 3 ([], []) 0 key_1 ≡ none)
    × (Connection.get_all toy_net 3 ([], []) 0 key_1 [] ≡ none)
calls-fault_example = calls-fault toy_net 3 ([], []) 0 key_1 value_a []
