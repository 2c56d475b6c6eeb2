-- ===== src/Client/Sse/Examples.antt =====
-- A stream of one event, served and read.
use bzy_personal.Prelude.{
  ◌≡◌, refl, inl, true, String, List, [], ◌∷◌, ◌++◌, map, Option, none, some, ne_of_str_eq,
}
use bzy_personal.Prelude.Texts.{is_break, trim_space, trim_left, trim_right, is_blank, is_space}
use bzy_personal.Prelude.Texts.Laws.{lacks, lacks-Lacks}
use bzy_personal.Errors.{Error, Result, ok}
use bzy_personal.Runtime.{Json}
use bzy_personal.Interface.Streaming.{Event}
use bzy_personal.Interface.Streaming.Wire.{received, closed, serve_sse}
use bzy_personal.Client.Sse.{SseEvent, new_reader, iter}
use bzy_personal.Client.Sse.Served.{Plain, OneLine}
use bzy_personal.Client.Sse.Received.{sent_events, run_each, iter-serve_sse}

abbrev tick : Event
tick = record { id = "1"; event = "tick"; payload = "{}" }

-- A function that keeps what it is called with.
abbrev keep : SseEvent → List SseEvent → Option Error × List SseEvent
keep e es = (none, es ++ (e ∷ []))

abbrev as_is : Json → Result String
as_is j = ok j

tick_name : OneLine "tick"
unfolding lacks is_break trim_space trim_left trim_right is_space is_blank
tick_name = (lacks-Lacks is_break "tick" refl, refl)

tick_id : OneLine "1"
unfolding lacks is_break trim_space trim_left trim_right is_space is_blank
tick_id = (lacks-Lacks is_break "1" refl, refl)

tick_data : OneLine "{}"
unfolding lacks is_break trim_space trim_left trim_right is_space is_blank
tick_data = (lacks-Lacks is_break "{}" refl, refl)

tick-Plain : Plain tick "{}"
tick-Plain = record {
  name_line = tick_name;
  id_line = tick_id;
  data_line = tick_data;
  not_done = ne_of_str_eq "tick" "done" refl;
  not_marker = ne_of_str_eq "{}" "[DONE]" refl;
  not_empty = ne_of_str_eq "{}" "" refl;
}

iter-serve_sse_example :
    iter
      (λ w. none)
      keep
      (new_reader (serve_sse true as_is (map received (tick ∷ []) ++ (closed ∷ []))).0 none)
      []
    ≡ some (run_each keep (sent_events (tick ∷ []) ("{}" ∷ [])) [])
iter-serve_sse_example =
    iter-serve_sse as_is keep (tick ∷ []) ("{}" ∷ []) closed [] (refl, tick-Plain, tt) (inl refl)
