-- ===== src/Failover/Standing.antt =====
-- Reading a stream leaves the lease of its request alone.
use five_api.Base.{
  ℕ, Bool, true, Option, none, some, String, List, [], ◌∷◌, length, Result, ok, err, if_both,
}
use five_api.Redis.{Redis}
use five_api.Failover.Errors.{Failure}
use five_api.Failover.Keys.{Provider}
use five_api.Failover.Billing.{Call}
use five_api.Failover.Attempts.{Gateway, Reported}
use five_api.Failover.Outcome.{StreamOutcome, Fed, goes_on, fails, feed, eof_error}
use five_api.Failover.Usage.{sse_billable_text}
use five_api.Failover.Streaming.{
  Chunk, Flow, Read, complete, broken, failed, read_chunks, note_usage, first_data, or_complete,
  metered, fed, at_channel,
}
use five_api.Failover.Settling.{Kept}

module _ (r : Redis) (g : Gateway) (rid : ℕ) where
  -- The lease of the request stands at this point of the stream.
  abbrev pub On : Flow r g → Type 0
  On f = Kept rid f.desk.lease f.desk.db

  abbrev pub OnRead : Read r g → Type 0
  OnRead (complete f) = On f
  OnRead (broken f) = On f
  OnRead (failed e f) = On f

  or_complete-OnRead : (e : Option Failure) (f : Flow r g) → On f → OnRead (or_complete r g e f)
  or_complete-OnRead none f h = h
  or_complete-OnRead (some e) f h = h

  note_usage-On : (u : Option Reported) (f : Flow r g) → On f → On (note_usage r g u f)
  note_usage-On none f h = h
  note_usage-On (some u) f h = h

  module _ (hangs_up : ℕ → Bool) where
    metered-OnRead :
        (headers : List (String × String)) (c : Chunk) (text : Result String String)
        (o : StreamOutcome) (f : Flow r g) (rest : StreamOutcome → Flow r g → Read r g)
        → On f
        → ((o' : StreamOutcome) (f' : Flow r g) → On f' → OnRead (rest o' f'))
        → OnRead (metered r g hangs_up headers c text o f rest)
    metered-OnRead headers c (err e) o f rest h k = h
    metered-OnRead headers c (ok text) o f rest h k =
        if_both OnRead (hangs_up (length f.delivered)) (broken _) _ h (
          if_both OnRead o.terminal _ _ (or_complete-OnRead (eof_error g.texts headers o) _ h)
            (k o _ h))

    fed-OnRead :
        (headers : List (String × String)) (c : Chunk) (x : Fed) (f : Flow r g)
        (rest : StreamOutcome → Flow r g → Read r g)
        → On f
        → ((o' : StreamOutcome) (f' : Flow r g) → On f' → OnRead (rest o' f'))
        → OnRead (fed r g hangs_up headers c x f rest)
    fed-OnRead headers c (fails e) f rest h k = h
    fed-OnRead headers c (goes_on o) f rest h k =
        metered-OnRead headers c (sse_billable_text g.texts c.line) o f rest h k

    begins :
        (call : Call) (p : Provider) (c : Chunk) (f : Flow r g)
        → On f
        → On (note_usage r g c.usage (first_data r g call p f))
    begins call p c f h =
        note_usage-On c.usage (first_data r g call p f) (
          if_both On f.data_yielded f (record (at_channel r g call p f) { data_yielded = true }) h
            h)

    pub read_chunks-OnRead :
        (call : Call) (p : Provider) (headers : List (String × String)) (ending : Option Failure)
        (cs : List Chunk) (o : StreamOutcome) (f : Flow r g)
        → On f
        → OnRead (read_chunks r g hangs_up call p headers ending cs o f)
    unfolding read_chunks
    read_chunks-OnRead call p headers (some e) [] o f h = h
    read_chunks-OnRead call p headers none [] o f h = or_complete-OnRead _ f h
    read_chunks-OnRead call p headers (some e) (c ∷ cs) o f h =
        fed-OnRead headers c (feed g.texts c.line headers o) _ _ (begins call p c f h)
          (λ o' f' h'. read_chunks-OnRead call p headers (some e) cs o' f' h')
    read_chunks-OnRead call p headers none (c ∷ cs) o f h =
        fed-OnRead headers c (feed g.texts c.line headers o) _ _ (begins call p c f h)
          (λ o' f' h'. read_chunks-OnRead call p headers none cs o' f' h')
