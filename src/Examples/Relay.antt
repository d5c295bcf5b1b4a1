-- ===== src/Examples/Relay.antt =====
-- A relayed probe.
use text.Mathlib.Text.{◌==◌}
use goalpaca.Prelude.{pos, ◌≤ℤ◌, ◌≡◌, refl, true, false, none, some}
use goalpaca.Float.Exact.{exact}
use goalpaca.Server.Relay.{
  Transport, Endpoint, discovery_register, take, refill, relay_burst, is_unicast_target,
  is_same_caller, relay_caller_allowed, reply_to, send_status, handle_discovery_reply,
}
use goalpaca.Server.Relay.Guarded.{IsFromPeer, IsSpent, IsUnicast, handle_discovery_reply-guarded}
use goalpaca.Examples.Registry.{plain_net}

abbrev here : Transport plain_net
here = record {
  split_host = λ s. some s;
  is_unspecified = λ a. false;
  is_multicast = λ a. false;
  ipv4_broadcast = 255;
  decode_target = λ s. some (s, pos 32227);
  send = λ a port. none;
}

-- An endpoint that has registered with address 7.
abbrev registered : Endpoint exact plain_net here
registered = record {
  mode = discovery_register;
  relay_peer = some 7;
  relay_gate = record { tokens = exact.of_int (pos 0); last = none };
}

handle_discovery_reply-guarded_example :
    (registered.mode ≡ discovery_register)
    × (("POST" == "POST") ≡ true)
    × IsFromPeer exact plain_net here registered "peer"
    × IsSpent exact plain_net here 5 registered.relay_gate
        (handle_discovery_reply exact plain_net here 5 "POST" "peer" "client"
          registered).0.relay_gate
    × IsUnicast exact plain_net here 7
    × (pos 1 ≤ℤ pos 32227)
    × (pos 32227 ≤ℤ pos 65535)
unfolding handle_discovery_reply take refill relay_burst relay_caller_allowed is_same_caller
    reply_to is_unicast_target send_status
handle_discovery_reply-guarded_example =
    handle_discovery_reply-guarded exact plain_net here 5 "POST" "peer" "client" registered 7
      (pos 32227) refl
