-- ===== src/Call/Answer.antt =====
-- A whole exchange with a server that answers.
use nfs_client_simulator.Common.{
  ℕ, ◌+◌, ◌%◌, ◌^◌, ◌≤◌, ◌<◌, ◌≡◌, ◌≢◌, refl, List, ◌∷◌, ◌++◌, ok, none, ◌==◌, if◌then◌else◌,
  length, take, drop, arith, length-tabulate, append_assoc,
}
use nfs_client_simulator.Common.Int.{ℤ, pos, minus_one}
use nfs_client_simulator.System.{SendEvent, RecvEvent}
use nfs_client_simulator.Xdr.{Buffer}
use nfs_client_simulator.Xdr.Encode.{be32}
use nfs_client_simulator.Rpc.{parse_and_strip_rpc}
use nfs_client_simulator.Rpc.Reply.{
  Reply, IsReply, reply_bytes, reply_body, results, parse_and_strip_rpc-reply_bytes,
}
use nfs_client_simulator.Context.{Client}
use nfs_client_simulator.Context.Send.{send}
use nfs_client_simulator.Context.Send.Delivery.{Takes, send-Takes}
use nfs_client_simulator.Context.Receive.{receive}
use nfs_client_simulator.Context.Receive.Framing.{Feeds, last_error}
use nfs_client_simulator.Context.Receive.Records.{receive-record}
use nfs_client_simulator.Call.{World, Memory, new_array, exchange}

-- What the system does in one exchange: it takes the request of `size` bytes, and then yields one record
-- with `body`, both piece by piece. After it come the results for later calls.
pub record Answer (size : ℕ) (body : List ℕ) : Type 0 where
  pub send_events : List SendEvent
  pub takes : Takes send_events size
  pub head_events : List RecvEvent
  pub body_events : List RecvEvent
  pub mark : ℕ
  pub is_word : mark < 2 ^ 32
  pub marked : mark % 2 ^ 31 ≡ length body
  pub heads : Feeds head_events (be32 mark)
  pub feeds : Feeds body_events body
  pub errno : ℤ
  pub later_options : List (ℤ × ℤ)
  pub later_sends : List SendEvent
  pub later_recvs : List RecvEvent

-- A client whose system will answer so.
abbrev pub asked : Client → {size : ℕ} {body : List ℕ} → Answer size body → Client
asked c a = record c {
  system = record c.system {
    options = (pos 0, a.errno) ∷ a.later_options;
    sends = a.send_events ++ a.later_sends;
    recvs = a.head_events ++ (a.body_events ++ a.later_recvs);
  };
}

-- The client after the exchange: the request has been sent, and both totals have grown.
abbrev pub answered : Client → Buffer → (size : ℕ) → (body : List ℕ) → Answer size body → Client
answered c wire size body a = record {
  context = record c.context {
    error = last_error a.body_events (last_error a.head_events (pos 0));
    total_sent = (c.total_sent + size) % 2 ^ 64;
    total_received = (c.total_received + 4 + length body) % 2 ^ 64;
  };
  system = record c.system {
    options = a.later_options;
    sends = a.later_sends;
    recvs = a.later_recvs;
    sent = c.sent ++ take size wire;
  };
}

-- The array of the reply behind it.
abbrev pub behind_reply : Memory → List ℕ → Buffer
behind_reply memory body =
    drop (length body) (be32 (length body) ++ drop 4 (new_array 1024 memory.response))

parsed_before :
    (xid want message_type size : ℕ) (r : Reply) (post more : List ℕ)
    → IsReply r
    → xid < 2 ^ 32
    → message_type < 2 ^ 32
    → parse_and_strip_rpc (reply_bytes xid message_type r post ++ more) size want
      ≡ ok (if xid == want then results r (post ++ more) else none)
parsed_before xid want message_type size r post more valid hx ht =
    rw (append_assoc (reply_body r) post more)
      (parse_and_strip_rpc-reply_bytes r xid want message_type size (post ++ more) valid hx ht)

-- With an open socket and a system that answers with a reply to some transaction, exchange sends the
-- request, receives the reply, and gives its results exactly if the transaction is the expected one and
-- the call succeeded. The reply has at most 1024 bytes, which is the size of the array for it.
pub exchange-reply_bytes :
    (w : World) (memory : Memory) (wire : Buffer) (size xid want message_type : ℕ) (r : Reply)
    (post : List ℕ) (a : Answer size (reply_bytes xid message_type r post))
    → w.client.context.socket_fd ≢ minus_one
    → 0 < size
    → size ≤ length wire
    → length (reply_bytes xid message_type r post) ≤ 1024
    → w.client.context.total_received < 2 ^ 64
    → IsReply r
    → xid < 2 ^ 32
    → message_type < 2 ^ 32
    → exchange (record w { client = asked w.client a }) memory 1024 size wire want
      ≡ ok (
        if xid == want
            then results r (post ++ behind_reply memory (reply_bytes xid message_type r post))
            else none,
        record w { client = answered w.client wire size (reply_bytes xid message_type r post) a },
      )
unfolding exchange
exchange-reply_bytes w memory wire size xid want message_type r post a fd more room small total
      valid hx ht =
    rw (sent_all, exchange, received_all, parsed) refl
  where
    body : List ℕ
    body = reply_bytes xid message_type r post

    array : Buffer
    array = new_array 1024 memory.response

    array_length : length array ≡ 1024
    array_length = length-tabulate memory.response 0 1024

    between : Client
    between = record {
      context = record w.client.context {
        total_sent = (w.client.context.total_sent + size) % 2 ^ 64;
      };
      system = record w.client.system {
        options = (pos 0, a.errno) ∷ a.later_options;
        sends = a.later_sends;
        recvs = a.head_events ++ (a.body_events ++ a.later_recvs);
        sent = w.client.system.sent ++ take size wire;
      };
    }

    sent_all : send (asked w.client a) wire size ≡ ok (pos 0, between)
    sent_all = send-Takes (asked w.client a) a.later_sends wire size fd more room a.takes refl

    received_all :
        receive between array 0
        ≡ ok (
          pos 0,
          length body,
          body ++ behind_reply memory body,
          answered w.client wire size body a,
        )
    received_all =
        receive-record between a.mark body array 0 a.later_recvs a.errno a.later_options fd refl
          refl a.heads a.feeds a.is_word a.marked (omega (arith, array_length))
          (omega (arith, array_length, small)) total

    parsed :
        parse_and_strip_rpc (body ++ behind_reply memory body) (length body) want
        ≡ ok (if xid == want then results r (post ++ behind_reply memory body) else none)
    parsed =
        parsed_before xid want message_type (length body) r post (behind_reply memory body) valid hx
          ht
