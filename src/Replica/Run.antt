-- ===== src/Replica/Run.antt =====
-- core/message-handling.go and core/timeout.go: a replica that handles messages and timeouts, one
-- after the other, in any order.
use minbft.Base.{ℕ, Bool, true, false, List, [], ◌∷◌, leb, inc64}
use minbft.Messages.{Request, Message}
use minbft.Replica.{Config, Replica, M}
use minbft.Replica.Views.{request_view_change, handle_timeout}
use minbft.Replica.Process.{handle_request, handle_message}
use minbft.Replica.Keeps.{
  Operations, Preserves, >>=-Preserves, return-Preserves, gets-Preserves, if-Preserves,
}
use minbft.Replica.Embedded.{Advances, handle_message-Preserves}

-- A message of a peer, one of the replica's own log, a client's Request, and the expiration of a
-- request timer or of the view-change timer that was started in a view.
pub data Event : Type 0 where
  peer_message : Message → Event
  own_message : Message → Event
  client_request : Request → Event
  timeout : (view : ℕ) → Event

unfoldable pub on_event : Config → Event → M Bool
unfolding handle_message handle_request handle_timeout
on_event cfg (peer_message m) = handle_message cfg true m
on_event cfg (own_message m) = handle_message cfg false m
on_event cfg (client_request q) = handle_request cfg true q
on_event cfg (timeout view) = handle_timeout cfg view

-- The states after the events; what a handler returns is only logged.
unfoldable pub run : Config → List Event → Replica → Replica
unfolding on_event
run cfg [] s = s
run cfg (e ∷ es) s = run cfg es (on_event cfg e s).1

module _ {cfg : Config} {P : Replica → Type 0} (k : Operations cfg P) (a : Advances P) where
  request_view_change-Preserves : (v : ℕ) → Preserves P (request_view_change cfg v)
  unfolding request_view_change
  request_view_change-Preserves v = >>=-Preserves (gets-Preserves (λ s. s.requested)) λ last.
      if-Preserves (leb v last) (return-Preserves false) (
        >>=-Preserves (a.asked v) λ _. >>=-Preserves (gets-Preserves (λ s. s.view)) λ view.
          if-Preserves (leb v view.expected_view) (return-Preserves false) (
            >>=-Preserves
              (a.rvc_generated cfg (record { replica_id = cfg.id; new_view = v; signature = [] }))
              λ _. return-Preserves true))

  pub on_event-Preserves : (e : Event) → Preserves P (on_event cfg e)
  unfolding on_event handle_message handle_timeout
  on_event-Preserves (peer_message m) = handle_message-Preserves k a true m
  on_event-Preserves (own_message m) = handle_message-Preserves k a false m
  on_event-Preserves (client_request q) = handle_message-Preserves k a true (Message.request q)
  on_event-Preserves (timeout view) = request_view_change-Preserves (inc64 view)

  pub run_keeps : (es : List Event) (s : Replica) → P s → P (run cfg es s)
  unfolding run
  run_keeps [] s p = p
  run_keeps (e ∷ es) s p = run_keeps es (on_event cfg e s).1 ((on_event-Preserves e).keeps s p)
