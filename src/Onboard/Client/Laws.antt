-- ===== src/Onboard/Client/Laws.antt =====
-- A client that is built anew over the queue of one that is gone.
use maritime_test_lab.Prelude.{
  ℕ, ◌≤◌, ◌*◌, String, false, Option, some, [], ◌∷◌, ok, ◌≡◌, refl, arith, sym, ◌∙◌, subst, str_eq,
  Bool-cases, inl, inr,
}
use maritime_test_lab.Onboard.Operation.{Operation}
use maritime_test_lab.Onboard.Queue.{Queue, find, find-sort, found-All}
use maritime_test_lab.Onboard.Retry.{Draws, backoff-le}
use maritime_test_lab.Onboard.Store.{Store, Codec, Bytes, open_store, pending}
use maritime_test_lab.Onboard.Store.Replay.{Prints, AllPrint}
use maritime_test_lab.Onboard.Store.Durable.{Durable}
use maritime_test_lab.Onboard.Syncer.{retry_backoff}
use maritime_test_lab.Onboard.Client.{Client, new, millisecond}

module _ (codec : Codec) where
  pub found-Prints :
      (j : String) (op : Operation) (ops : Queue)
      → AllPrint codec ops
      → find j ops ≡ some op
      → Prints codec op
  unfolding find
  found-Prints j op [] p e = cc
  found-Prints j op (o ∷ ops) (p, q) e = elim (Bool-cases (str_eq o.client_request_id j)) [
    | inl h ↦ subst (Prints codec) (ground arith) p
    | inr h ↦ found-Prints j op ops q (ground arith)
  ]

  -- A client that is built over the file of a durable queue is durable itself, has for each id the operation that was pending, has no failed attempt to its
  -- name, and waits at most 100 ms before its first attempt.
  pub new-Durable :
      (int63n : ℕ → ℕ) (s : Store) (tmp : Option Bytes) (gateway_url : String) (request_timeout : ℕ)
      → Durable codec s
      → (c : Client) × (new codec int63n false s.file tmp gateway_url request_timeout ≡ ok c)
        × Durable codec c.syncer.store
        × ((j : String) → find j (pending c.syncer.store) ≡ find j (pending s))
        × (c.syncer.retry_count ≡ 0)
        × (Draws c.retry → retry_backoff c.retry c.syncer ≤ 100 * millisecond)
  unfolding new open_store retry_backoff
  new-Durable int63n s tmp gateway_url request_timeout d = (
    client,
    rw d.loads refl,
    record {
      distinct = d.apart;
      prints =
          found-All (Prints codec) d.replayed d.apart
            (λ j op e. found-Prints j op s.ops d.prints (sym (d.same j) ∙ e));
      closed = d.closed;
      replayed = d.replayed;
      apart = d.apart;
      loads = d.loads;
      same = λ j. refl;
    },
    λ j. find-sort d.replayed d.apart j ∙ d.same j ∙ sym (find-sort s.ops d.distinct j),
    refl,
    λ law. omega (arith, (backoff-le client.retry 0 law).0),
  )
    where
      client : Client
      client = record {
        syncer = record {
          store = record { ops = d.replayed; file = s.file; tmp = tmp };
          retry_count = 0;
          last_attempt = 0;
          last_error = "";
        };
        retry = record { base = 100 * millisecond; cap = 30000 * millisecond; int63n = int63n };
        gateway_url = gateway_url;
        request_timeout = request_timeout;
      }
