-- ===== src/Failover/Streaming.antt =====
-- Streaming an answer: `stream_with_failover` of backend/app/services/proxy.py.
use Prim.Native.String.{◌++◌}
use mathlib.Core.Option
use five_api.Base.{
  ℕ, String, Bool, true, false, ◌||◌, Option, none, some, List, [], ◌∷◌, if◌then◌else◌, Result, ok,
  err, length,
}
use five_api.Base.Int.{ℤ, pos}
use five_api.Models.{Channel}
use five_api.Redis.{Redis}
use five_api.Failover.Errors.{Kind, Failure}
use five_api.Failover.Details.{Description}
use five_api.Failover.Outcome.{StreamOutcome, finished, Fed, goes_on, fails, feed, eof_error}
use five_api.Failover.Usage.{OutputMeter, new_meter, meter_feed, sse_billable_text}
use five_api.Failover.Keys.{Provider, apply_model_mapping}
use five_api.Failover.Billing.{Call, TokenCounts, Desk, no_description}
use five_api.Failover.Attempts.{Gateway, Reported}
use five_api.Failover.Execute.{reported_prompt, reported_output}

-- One item of a channel's stream; an empty usage dict is `none`.
pub record Chunk : Type 0 where
  pub line : String
  pub usage : Option Reported

-- What a channel sends: its chunks, and the failure that ends them if one does.
pub record Script : Type 0 where
  pub headers : List (String × String)
  pub chunks : List Chunk
  pub ending : Option Failure

-- A line that the client got, with the number of the sending that it came from.
abbrev pub Delivered : Type 0
Delivered = ℕ × String

module _ (r : Redis) (g : Gateway) where
  open r use {Store}

  -- The variables of the generator; `delivered` holds its lines, the last one first.
  pub record Flow : Type 0 where
    pub tokens : TokenCounts
    pub web_search_requests : ℤ
    pub status_code : ℕ
    pub description : Description
    pub channel : Option Channel
    pub model_actual : String
    pub data_yielded : Bool
    pub completed : Bool
    pub answered : Bool
    pub reported_prompt : Bool
    pub reported_output : Bool
    pub failed_over : Bool
    pub meter : OutputMeter
    pub active : Option ℕ
    pub uncertain : Bool
    pub delivered : List Delivered
    pub desk : Desk r

  abbrev pub new_flow : Call → Desk r → Flow
  new_flow call d = record {
    tokens = record {
      prompt_tokens = pos 0;
      completion_tokens = pos 0;
      cached_tokens = pos 0;
      cache_write_tokens = pos 0;
      request_units = pos 0;
    };
    web_search_requests = pos 0;
    status_code = 200;
    description = no_description;
    channel = none;
    model_actual = call.model_requested;
    data_yielded = false;
    completed = false;
    answered = false;
    reported_prompt = false;
    reported_output = false;
    failed_over = false;
    meter = new_meter;
    active = none;
    uncertain = false;
    delivered = [];
    desk = d;
  }

  abbrev pub at_channel : Call → Provider → Flow → Flow
  at_channel call p f = record f {
    channel = some p.channel;
    model_actual = apply_model_mapping p call.model_requested;
  }

  abbrev pub first_data : Call → Provider → Flow → Flow
  first_data call p f =
      if f.data_yielded then f else record (at_channel call p f) { data_yielded = true }

  -- The counts that a usage dict reports replace the ones before.
  abbrev pub prompt_counts : Reported → TokenCounts → TokenCounts
  prompt_counts u t =
      if reported_prompt u
      then record t {
        prompt_tokens = Option.get_or u.prompt_tokens t.prompt_tokens;
        cached_tokens = Option.get_or u.cached_tokens t.cached_tokens;
        cache_write_tokens = Option.get_or u.cache_write_tokens t.cache_write_tokens;
      }
      else t

  abbrev pub output_counts : Reported → TokenCounts → TokenCounts
  output_counts u t =
      if reported_output u
      then record t { completion_tokens = Option.get_or u.completion_tokens t.completion_tokens }
      else t

  abbrev pub note_usage : Option Reported → Flow → Flow
  note_usage none f = f
  note_usage (some u) f = record f {
    web_search_requests = Option.get_or u.web_search_requests f.web_search_requests;
    reported_prompt = f.reported_prompt || reported_prompt u;
    reported_output = f.reported_output || reported_output u;
    tokens = output_counts u (prompt_counts u f.tokens);
  }

  -- How reading a stream ends: it was complete, it failed, or the client hung up at a line.
  pub data Read : Type 0 where
    complete broken : Flow → Read
    failed : Failure → Flow → Read

  abbrev pub deliver : String → Flow → Flow
  deliver line f = record f { delivered = (length f.desk.sends, line) ∷ f.delivered }

  abbrev pub or_complete : Option Failure → Flow → Read
  or_complete none f = complete f
  or_complete (some e) f = failed e f

  abbrev pub at_end : List (String × String) → StreamOutcome → Flow → Read
  at_end headers o f = or_complete (eof_error g.texts headers o) f

  abbrev pub delivered_line : StreamOutcome → String → String
  delivered_line o line = if o.terminal then g.texts.rstrip_newlines line ++ "\n\n" else line

  -- `hangs_up` says whether the client leaves at a line, by the number of lines it got before.
  module _ (hangs_up : ℕ → Bool) where
    abbrev pub after_yield :
        List (String × String) → Chunk → StreamOutcome → Flow → (StreamOutcome → Flow → Read) → Read
    after_yield headers c o f rest =
        if hangs_up (length f.delivered)
        then broken (deliver (delivered_line o c.line) f)
        else if o.terminal
        then at_end headers o (deliver (delivered_line o c.line) f)
        else rest o (deliver (delivered_line o c.line) f)

    abbrev pub metered :
        List (String × String)
        → Chunk
        → Result String String
        → StreamOutcome
        → Flow
        → (StreamOutcome → Flow → Read)
        → Read
    metered headers c (err e) o f rest = failed (record { kind = Kind.other; message = e }) f
    metered headers c (ok text) o f rest =
        after_yield headers c o
          (record f { meter = meter_feed text f.meter; answered = finished o }) rest

    abbrev pub fed :
        List (String × String) → Chunk → Fed → Flow → (StreamOutcome → Flow → Read) → Read
    fed headers c (fails e) f rest = failed e f
    fed headers c (goes_on o) f rest = metered headers c (sse_billable_text g.texts c.line) o f rest

    unfoldable pub read_chunks :
        Call
        → Provider
        → List (String × String)
        → Option Failure
        → List Chunk
        → StreamOutcome
        → Flow
        → Read
    read_chunks call p headers (some e) [] o f = failed e f
    read_chunks call p headers none [] o f = at_end headers o f
    read_chunks call p headers ending (c ∷ cs) o f =
        fed headers c (feed g.texts c.line headers o) (note_usage c.usage (first_data call p f))
          λ o' f'. read_chunks call p headers ending cs o' f'
