-- ===== src/Node/Replies.antt =====
-- core/request.go and core/message-handling.go: what a client gets in answer to its request, whatever
-- happens to the replica.
use minbft.Base.{ℕ, ◌≡◌, sym, ap, ◌∙◌, some, List, arith, suc}
use minbft.Base.Result.{ok}
use minbft.Messages.{Request, Reply}
use minbft.ClientState.Reply.{ReplyState, sends, reply_pass}
use minbft.Replica.Once.{new_replica-IsServing}
use minbft.Node.{
  NodeConfig, Node, new_node, delivery, signed_reply, NodeEvent, run_node, client_reply,
}
use minbft.Node.Core.{run_node_keeps}
use minbft.Node.Executed.{delivery-injective}
use minbft.Node.Answers.{Source, IsAnswering, on_node_event-IsAnswering}

pub sends_last :
    (s : ReplyState) (seq : ℕ) (r : Reply)
    → reply_pass s seq ≡ ok (sends r)
    → (s.reply ≡ some r) × (r.sequence ≡ seq)
unfolding reply_pass
sends_last s seq r e = ground arith

-- What the Reply `r` to the request `q` of a client is worth.
pub record IsAnswer (cfg : NodeConfig) (n : Node) (q : Request) (r : Reply) : Type 0 where
  pub index : ℕ
  pub executed : Request
  pub result : List ℕ
  pub delivered : delivery n.core.delivered index ≡ some executed
  pub returned : n.results index ≡ some result
  pub content : r ≡ signed_reply cfg executed result
  pub same_client : executed.client_id ≡ q.client_id
  pub same_sequence : executed.sequence ≡ q.sequence
  pub only :
      (j : ℕ) (p : Request)
      → delivery n.core.delivered j ≡ some p
      → p.client_id ≡ q.client_id
      → p.sequence ≡ q.sequence
      → index ≡ j

pub Source-IsAnswer :
    (cfg : NodeConfig) (n : Node) (q : Request) (r : Reply)
    → IsAnswering cfg n
    → Source cfg n.core.delivered n.results q.client_id r
    → r.sequence ≡ q.sequence
    → IsAnswer cfg n q r
unfolding signed_reply
Source-IsAnswer cfg n q r h s seq =
    let number : s.request.sequence ≡ q.sequence =
      ap (λ (p : Reply). p.sequence) (sym s.content) ∙ seq in
    record {
      index = s.index;
      executed = s.request;
      result = s.result;
      delivered = s.executed;
      returned = s.returned;
      content = s.content;
      same_client = s.own;
      same_sequence = number;
      only = λ j p f c k.
          delivery-injective n.core.delivered (suc (n.core.seqs s.request.client_id).last_retired)
            s.index j (h.serves s.request.client_id).once s.executed f (c ∙ sym s.own)
            (k ∙ sym number);
    }

last_reply-IsAnswer :
    (cfg : NodeConfig) (n : Node) (q : Request) (r : Reply)
    → IsAnswering cfg n
    → client_reply n q ≡ ok (sends r)
    → IsAnswer cfg n q r
unfolding client_reply
last_reply-IsAnswer cfg n q r h e =
    let (last, seq) = sends_last (n.replies q.client_id) q.sequence r e in
    Source-IsAnswer cfg n q r h (h.answers q.client_id r last) seq

pub new_node-IsAnswering : (cfg : NodeConfig) → IsAnswering cfg (new_node cfg)
new_node-IsAnswering cfg = record { serves = new_replica-IsServing cfg.core; answers = λ c p g. cc }

-- Whatever happens to a replica: the Reply that a client gets for its request is this replica's signed
-- Reply with the result that the application returned for a delivered request of this client with the
-- same sequence number, and only one such request has been delivered.
pub client_reply-IsAnswer :
    (cfg : NodeConfig) (es : List NodeEvent) (q : Request) (r : Reply)
    → client_reply (run_node cfg es (new_node cfg)) q ≡ ok (sends r)
    → IsAnswer cfg (run_node cfg es (new_node cfg)) q r
client_reply-IsAnswer cfg es q r e =
    last_reply-IsAnswer cfg (run_node cfg es (new_node cfg)) q r
      (run_node_keeps cfg (IsAnswering cfg) (on_node_event-IsAnswering cfg) es (new_node cfg)
        (new_node-IsAnswering cfg))
      e
