-- ===== src/Interface/Routes/Missed.antt =====
-- Requests of pkg/client that miss the routes of the gateway.
use mathlib.Core.Bool.{false≢true}
use text.Mathlib.TextLemmas.{append_assoc}
use bzy_personal.Prelude.{
  ◌≡◌, ◌≢◌, refl, sym, ap, ◌∙◌, true, false, String, [], ◌∷◌, ◌++◌, ◌==◌, str_eq_ne, ℕ, ltb, none,
  some, Bool-cases, inl, inr,
}
use bzy_personal.Prelude.Ints.{pos}
use bzy_personal.Prelude.Map.{Map, insert}
use bzy_personal.Prelude.Texts.{◌<>◌, split_at, has_prefix}
use bzy_personal.Prelude.Texts.Laws.{has_prefix-append, Lacks, lacks, lacks-Lacks, Lacks-append}
use bzy_personal.Client.Http.{Client}
use bzy_personal.Client.Http.Recorded.{IsEncoded}
use bzy_personal.Client.Api.{wrapped, field}
use bzy_personal.Client.Api.Recorded.{recorder, log_of, call-recorded, open_stream-recorded}
use bzy_personal.Client.Api.Memory
use bzy_personal.Client.Api.Agents
use bzy_personal.Client.Api.Tasks
use bzy_personal.Client.Api.Memory.{recall_path}
use bzy_personal.Client.Api.Agents.{agent_stream_path}
use bzy_personal.Client.Api.Tasks.{tasks_path, logs_path}
use bzy_personal.Interface.Routes.{
  get_task, candidates, candidates_in, fitting, fits, segments_fit, segment_fits, routes,
}
use bzy_personal.Interface.Routes.Requests.{Codecs, fitting_routes}
use bzy_personal.Interface.Routes.Paths.{Segment, one_more, two_more}

stream-Lacks : Lacks (λ c. c == 47) "stream"
stream-Lacks = (refl, (refl, (refl, (refl, (refl, (refl, tt))))))

-- A text is not one that its beginning is not a prefix of.
prefix_ne : (p q s : String) → has_prefix p (p <> q) ≡ true → has_prefix p s ≡ false → (p <> q) ≢ s
prefix_ne p q s long short e = false≢true (sym short ∙ ap (λ x. has_prefix p x) (sym e) ∙ long)

recall_ne : (q s : String) → has_prefix "recall?" s ≡ false → ("recall?" <> q) ≢ s
unfolding has_prefix
recall_ne q s short = prefix_ne "recall?" q s (has_prefix-append "recall?" "recall?" q refl) short

logs_ne : (q s : String) → has_prefix "logs?" s ≡ false → ("logs?" <> q) ≢ s
unfolding has_prefix
logs_ne q s short = prefix_ne "logs?" q s (has_prefix-append "logs?" "logs?" q refl) short

mark_ne : (q s : String) → has_prefix "?" s ≡ false → ("?" <> q) ≢ s
unfolding has_prefix
mark_ne q s short = prefix_ne "?" q s (has_prefix-append "?" "?" q refl) short

-- A closed text with no slash before a query.
with_query :
    (p q : String)
    → lacks (λ c. c == 47) p ≡ true
    → Lacks (λ c. c == 47) q
    → Lacks (λ c. c == 47) (p <> q)
with_query p q h k = Lacks-append (λ c. c == 47) p q (lacks-Lacks (λ c. c == 47) p h) k

mark-Segment : (q : String) → Lacks (λ c. c == 47) q → Segment ("?" <> q)
unfolding lacks has_prefix
mark-Segment q k = (with_query "?" q refl k, mark_ne q "" refl)

recall_split :
    (q : String)
    → Lacks (λ c. c == 47) q
    → split_at 47 (recall_path q) ≡ split_at 47 "/api/v1/memory" ++ (("recall?" <> q) ∷ [])
unfolding lacks has_prefix
recall_split q k =
    ap (λ x. split_at 47 x) (append_assoc "/api/v1/memory/" "recall?" q)
    ∙ one_more "/api/v1/memory" ("recall?" <> q)
        (with_query "recall?" q refl k, recall_ne q "" refl)

logs_split :
    (id q : String)
    → Segment id
    → Lacks (λ c. c == 47) q
    → split_at 47 (logs_path id <> ("?" <> q))
      ≡ split_at 47 "/api/v1/tasks" ++ (id ∷ ("logs?" <> q) ∷ [])
unfolding lacks
logs_split id q seg k =
    ap (λ x. split_at 47 x)
      (append_assoc "/api/v1/tasks/" (id <> "/logs") ("?" <> q)
        ∙ ap (λ x. "/api/v1/tasks/" <> x)
            (append_assoc id "/logs" ("?" <> q)
              ∙ ap (λ x. id <> x) (sym (append_assoc "/logs" "?" q) ∙ append_assoc "/" "logs?" q)))
    ∙ two_more "/api/v1/tasks" id ("logs?" <> q) seg (with_query "logs?" q refl k)

candidates-misses :
    (id query : String)
    → Segment id
    → Lacks (λ c. c == 47) query
    → (candidates "POST" (agent_stream_path id) ≡ [])
      × (candidates "GET" (recall_path query) ≡ [])
      × (candidates "GET" (logs_path id <> ("?" <> query)) ≡ [])
      × (candidates "GET" (tasks_path <> ("?" <> query)) ≡ (get_task, true) ∷ [])
unfolding candidates candidates_in fitting fits segments_fit segment_fits split_at has_prefix routes
candidates-misses id query seg no_slash = (
  rw (two_more "/api/v1/agents" id "stream" seg stream-Lacks, str_eq_ne id "" seg.1) refl,
  rw
      (
        recall_split query no_slash,
        str_eq_ne ("recall?" <> query) "recall" (recall_ne query "recall" refl),
        str_eq_ne ("recall?" <> query) "" (recall_ne query "" refl),
      )
      refl,
  rw
      (
        logs_split id query seg no_slash,
        str_eq_ne id "" seg.1,
        str_eq_ne ("logs?" <> query) "logs" (logs_ne query "logs" refl),
      )
      refl,
  rw
      (
        one_more "/api/v1/tasks" ("?" <> query) (mark-Segment query no_slash),
        str_eq_ne ("?" <> query) "" (mark_ne query "" refl),
      )
      refl,
)

module _ {Float : Type 0} (codecs : Codecs Float) (c : Client)
    (enough : (tries : ℕ) × (c.cfg.max_retries ≡ pos tries)) where
  list_path-status :
      (status : String) (limit : ℕ)
      → status ≢ ""
      → Tasks.list_path (recorder c) codecs.tasks status limit
        ≡ tasks_path
          <> ("?"
              <> codecs.tasks.encode_query (
                  Tasks.with_limit
                    (recorder c)
                    codecs.tasks
                    limit
                    (Tasks.with_status (recorder c) codecs.tasks status)))
  unfolding Tasks.list_path Tasks.with_status Tasks.with_limit insert
  list_path-status status limit some_status = elim (Bool-cases (ltb 0 limit)) [
    | inl p ↦ rw (str_eq_ne status "" some_status, p) refl
    | inr p ↦ rw (str_eq_ne status "" some_status, p) refl
  ]

  -- Of the functions of the client, run at a transport that takes a path for the URL, with the question mark in
  -- it, and answers, `RunStream` of the agents, `Recall` of the memories and `Logs` with `follow` send one request
  -- that fits no entry of the gateway's table, and `List` of the tasks with a status sends one that fits the
  -- entry of a single task and no other. The identifier is not empty and has no slash, an encoded query has no
  -- slash, the body is encoded without an error, and the number of retries is not negative.
  pub fitting_routes-missed :
      (id status query : String) (limit top_k : ℕ) (min_score : Float)
      (req : Agents.RunAgentRequest)
      → Segment id
      → status ≢ ""
      → IsEncoded (some (codecs.agents.marshal req))
      → ((q : Map String) → Lacks (λ x. x == 47) (codecs.memory.encode_query q))
      → ((q : Map String) → Lacks (λ x. x == 47) (codecs.tasks.encode_query q))
      → (fitting_routes (Agents.run_stream (recorder c) codecs.agents id req []).1 ≡ [] ∷ [])
        × (fitting_routes
              (log_of (Memory.recall (recorder c) codecs.memory query top_k min_score []))
            ≡ [] ∷ [])
        × (fitting_routes (Tasks.logs (recorder c) codecs.tasks id true []).1 ≡ [] ∷ [])
        × (fitting_routes (log_of (Tasks.list (recorder c) codecs.tasks status limit []))
            ≡ ((get_task, true) ∷ []) ∷ [])
  unfolding fitting_routes Agents.run_stream Memory.recall Tasks.logs Tasks.list wrapped field
  fitting_routes-missed id status query limit top_k min_score req seg some_status sent recalls
        lists =
      let asked =
        codecs.memory.encode_query
          (Memory.recall_query (recorder c) codecs.memory query top_k min_score) in
      let followed = codecs.tasks.encode_query (insert "follow" "true" []) in
      let filtered = codecs.tasks.encode_query (
        Tasks.with_limit (recorder c) codecs.tasks limit
          (Tasks.with_status (recorder c) codecs.tasks status)) in
      let (stream, _, log, _) = candidates-misses id followed seg (lists _) in
      let (_, recall, _, _) = candidates-misses id asked seg (recalls _) in
      let (_, _, _, list) = candidates-misses id filtered seg (lists _) in
      (
        ap fitting_routes
              (open_stream-recorded c "agent stream: " "POST" (agent_stream_path id) _ sent)
            ∙ ap (λ r. r ∷ []) stream,
        rw (call-recorded c enough "GET" (recall_path asked) none codecs.memory.read_recalled _ tt)
            (ap (λ r. r ∷ []) recall),
        ap fitting_routes (
              open_stream-recorded c "task logs: " "GET" (logs_path id <> ("?" <> followed)) none
                tt)
            ∙ ap (λ r. r ∷ []) log,
        rw
            (
              list_path-status status limit some_status,
              call-recorded c enough "GET" (tasks_path <> ("?" <> filtered)) none
                  codecs.tasks.read_tasks _ tt,
            )
            (ap (λ r. r ∷ []) list),
      )
