-- ===== src/Client/Api/Examples.antt =====
-- A task that is waited for, and a chat that is streamed.
use bzy_personal.Prelude.{
  ◌≡◌, ◌↔◌, ◌≤◌, refl, inl, ℕ, ◌==◌, true, false, [], ◌∷◌, ◌++◌, map, Option, none, some,
  if◌then◌else◌, ne_of_str_eq,
}
use bzy_personal.Prelude.Texts.{is_break, is_space, is_blank, trim_space, trim_left, trim_right}
use bzy_personal.Prelude.Texts.Laws.{lacks, lacks-Lacks}
use bzy_personal.Errors.{Error, text, ok, err}
use bzy_personal.Interface.Streaming.{Event}
use bzy_personal.Interface.Streaming.Wire.{received, closed, serve_sse}
use bzy_personal.Client.Http.{Net, new_client}
use bzy_personal.Client.Sse.{new_reader}
use bzy_personal.Client.Sse.Served.{OneLine, Plain}
use bzy_personal.Client.Api.{Link}
use bzy_personal.Client.Api.Tasks
use bzy_personal.Client.Api.Tasks.{no_task, task_completed}
use bzy_personal.Client.Api.Chat
use bzy_personal.Client.Api.Chat.{ChatDelta, stream_text}
use bzy_personal.Client.Api.Polling.{Ends, IsFinal, wait-Ends}
use bzy_personal.Client.Api.Texts.{joined, stream_text-serve_sse}

abbrev quiet : Net (Unit {0})
quiet = record {
  join_path = λ base path. ok path;
  bad_request = λ method url. none;
  send = λ req w. (ok (record { status = 200; body = "{}" }), w);
  stream = λ req w. (err (text "no stream"), w);
  error_body = λ body. (none, ("", body, ""));
  status_text = λ status. "";
}

abbrev link : Link (Unit {0})
link = record {
  net = quiet;
  int63n = λ n. 0;
  waits = λ d w. (none, w);
  client = new_client "http://localhost:8080" [];
}

abbrev done_task : Tasks.Task
done_task = record no_task { id = "t1"; status = task_completed }

abbrev tasks_codec : Tasks.Codec
tasks_codec = record {
  marshal = λ r. ok "{}";
  read_enqueued = λ s r. (ok tt, r);
  read_task = λ s t. (ok tt, done_task);
  read_tasks = λ s r. (ok tt, r);
  read_entry = λ s e. (ok tt, e);
  encode_query = λ q. "";
}

abbrev rest : ℕ → Unit {0} → Option Error × Unit {0}
rest d w = (none, w)

wait-Ends_example : (Tasks.wait link tasks_codec rest 3 "t1" 0 tt ≡ some (ok done_task, tt)) ↔ (
    (n : ℕ) × (n ≤ 3)
    × Ends
        (λ v. Tasks.get link tasks_codec "t1" v)
        (λ t. IsFinal t.status)
        (λ v. rest (if 0 == 0 then 1000000000 else 0) v)
        n
        tt
        (ok done_task, tt))
wait-Ends_example = wait-Ends link rest tasks_codec 3 "t1" 0 tt (ok done_task, tt)

abbrev hello : ChatDelta
hello = record { delta = "hello"; is_done = false; finish = "" }

abbrev chat_codec : Chat.Codec
chat_codec = record {
  marshal_chat = λ r. ok "{}";
  marshal_session = λ r. ok "{}";
  read_response = λ s r. (ok tt, r);
  read_session = λ s r. (ok tt, r);
  read_delta = λ s d. (ok tt, hello);
}

abbrev delta_event : Event
delta_event = record { id = ""; event = "delta"; payload = "{}" }

delta_name : OneLine "delta"
unfolding lacks is_break trim_space trim_left trim_right is_space is_blank
delta_name = (lacks-Lacks is_break "delta" refl, refl)

no_id : OneLine ""
unfolding lacks is_break trim_space trim_left trim_right is_space is_blank
no_id = (tt, refl)

delta_data : OneLine "{}"
unfolding lacks is_break trim_space trim_left trim_right is_space is_blank
delta_data = (lacks-Lacks is_break "{}" refl, refl)

delta-Plain : Plain delta_event "{}"
delta-Plain = record {
  name_line = delta_name;
  id_line = no_id;
  data_line = delta_data;
  not_done = ne_of_str_eq "delta" "done" refl;
  not_marker = ne_of_str_eq "{}" "[DONE]" refl;
  not_empty = ne_of_str_eq "{}" "" refl;
}

stream_text-serve_sse_example :
    stream_text chat_codec
      (λ v. none)
      (new_reader
        (serve_sse true (λ j. ok j) (map received (delta_event ∷ []) ++ (closed ∷ []))).0
        none)
      tt
    ≡ some (none, (joined (hello ∷ []), tt))
stream_text-serve_sse_example =
    stream_text-serve_sse (λ j. ok j) chat_codec (delta_event ∷ []) ("{}" ∷ []) (hello ∷ []) closed
      tt (refl, delta-Plain, tt) (refl, tt) (inl refl)
