-- ===== src/Client/Sse/Served.antt =====
-- pkg/client/sse.go on what streaming.go of apps/bzy-interface writes: the events that a client reads are
-- the events that were served.
use text.Mathlib.TextLemmas.{nil-append, append_assoc}
use bzy_personal.Prelude.{
  ◌≡◌, refl, sym, ap, ◌∙◌, String, Option, none, length, ◌<◌, arith, str_eq, eq_iff, Bool-cases,
  inl, inr, ◌≢◌, str_eq_ne,
}
use bzy_personal.Prelude.Texts.{◌<>◌, has_prefix, is_break, trim_space, drop_prefix, split_at}
use bzy_personal.Prelude.Texts.Laws.{
  has_prefix-append, drop_prefix-append, Lacks, lacks, lacks-Lacks, Lacks-append, trim_right-Lacks,
  trim_space-append, split_at-cons, split_at-line, split_at-newline, split_at-grows,
}
use bzy_personal.Errors.{Error}
use bzy_personal.Interface.Streaming.{Event}
use bzy_personal.Interface.Streaming.Wire.{optional_field, frame, done_frame}
use bzy_personal.Client.Sse.{
  SseEvent, no_event, eof, over, go_on, dispatched, on_line, dispatch, event, after_line, next_from,
  next, new_reader,
}

-- A line in front of the rest of a body.
step_line :
    (ending : Option Error) (s t : String) (e : SseEvent)
    → Lacks is_break s
    → next_from ending (split_at 10 (s <> ("\n" <> t))) e
      ≡ after_line (λ e'. next_from ending (split_at 10 t) e') (split_at 10 t) (on_line s e)
unfolding next_from
step_line ending s t e h =
    let (a, more, f) = split_at-cons 10 t in
    rw (split_at-line s t h, f, trim_right-Lacks is_break s h) refl

on_event :
    (s : String) (e : SseEvent)
    → on_line ("event: " <> s) e ≡ go_on (record e { event = trim_space s })
unfolding on_line has_prefix
on_event s e =
    rw (has_prefix-append "id:" "event: " s refl, has_prefix-append "event:" "event: " s refl)
      (rw (append_assoc "event:" " " s, drop_prefix-append "event:" (" " <> s), trim_space-append s)
        refl)

on_id :
    (s : String) (e : SseEvent) → on_line ("id: " <> s) e ≡ go_on (record e { id = trim_space s })
unfolding on_line has_prefix
on_id s e =
    rw (has_prefix-append "id:" "id: " s refl)
      (rw (append_assoc "id:" " " s, drop_prefix-append "id:" (" " <> s), trim_space-append s) refl)

on_data :
    (s : String) (e : SseEvent)
    → on_line ("data: " <> s) e ≡ go_on (record e { payload = trim_space s })
unfolding on_line has_prefix
on_data s e =
    rw
      (
        has_prefix-append "id:" "data: " s refl,
        has_prefix-append "event:" "data: " s refl,
        has_prefix-append "data:" "data: " s refl,
      )
      (rw (append_assoc "data:" " " s, drop_prefix-append "data:" (" " <> s), trim_space-append s)
        refl)

-- A text that stands in a line as it is.
abbrev pub OneLine : String → Type 0
OneLine s = Lacks is_break s × (trim_space s ≡ s)

labelled : (label s t : String) → (label <> (s <> "\n")) <> t ≡ (label <> s) <> ("\n" <> t)
labelled label s t =
    append_assoc label (s <> "\n") t
    ∙ rw (append_assoc s "\n" t) (sym (append_assoc label s ("\n" <> t)))

-- The line of the event's name, where there is one.
read_event :
    (ending : Option Error) (v t : String)
    → OneLine v
    → next_from ending (split_at 10 (optional_field "event: " v <> t)) no_event
      ≡ next_from ending (split_at 10 t) (record no_event { event = v })
unfolding optional_field after_line is_break lacks
read_event ending v t (h, k) = elim (Bool-cases (str_eq v "")) [
  | inl e ↦ rw (e, (eq_iff v "").0 e, nil-append t) refl
  | inr e ↦
      rw (e, labelled "event: " v t)
        (rw
          (
            step_line ending ("event: " <> v) t no_event
                (Lacks-append is_break "event: " v (lacks-Lacks is_break "event: " refl) h),
            on_event v no_event,
            k,
          )
          refl)
]

read_id :
    (ending : Option Error) (v t name : String)
    → OneLine v
    → next_from ending
        (split_at 10 (optional_field "id: " v <> t))
        (record no_event { event = name })
      ≡ next_from ending (split_at 10 t) (record { id = v; event = name; payload = "" })
unfolding optional_field after_line is_break lacks
read_id ending v t name (h, k) = elim (Bool-cases (str_eq v "")) [
  | inl e ↦ rw (e, (eq_iff v "").0 e, nil-append t) refl
  | inr e ↦
      let ev : SseEvent = record no_event { event = name } in
      rw (e, labelled "id: " v t)
        (rw
          (
            step_line ending ("id: " <> v) t ev
                (Lacks-append is_break "id: " v (lacks-Lacks is_break "id: " refl) h),
            on_id v ev,
            k,
          )
          refl)
]

-- What a reader makes of an event whose data is the text `d`.
abbrev pub as_read : Event → String → SseEvent
as_read e d = record { id = e.id; event = e.event; payload = d }

-- The texts of an event are lines as they are, and none of them says that the stream is over.
pub record Plain (e : Event) (d : String) : Type 0 where
  pub name_line : OneLine e.event
  pub id_line : OneLine e.id
  pub data_line : OneLine d
  pub not_done : e.event ≢ "done"
  pub not_marker : d ≢ "[DONE]"
  pub not_empty : d ≢ ""

dispatch-Plain :
    (e : Event) (d : String) → Plain e d → dispatch (as_read e d) ≡ dispatched (as_read e d)
unfolding dispatch
dispatch-Plain e d p =
    rw
      (
        str_eq_ne e.event "done" p.not_done,
        str_eq_ne d "[DONE]" p.not_marker,
        str_eq_ne d "" p.not_empty,
      )
      refl

blank_line :
    (ending : Option Error) (rest : String) (e : Event) (d : String)
    → Plain e d
    → next_from ending (split_at 10 ("\n" <> rest)) (as_read e d)
      ≡ (event (as_read e d), split_at 10 rest)
unfolding after_line on_line has_prefix
blank_line ending rest e d p =
    ap (λ t. next_from ending (split_at 10 t) (as_read e d)) (sym (nil-append ("\n" <> rest)))
    ∙ step_line ending "" rest (as_read e d) tt
    ∙ rw (dispatch-Plain e d p) refl

-- The line of the data and the blank line after it.
read_data :
    (ending : Option Error) (e : Event) (d rest : String)
    → Plain e d
    → next_from ending
        (split_at 10 (("data: " <> (d <> ("\n" <> "\n"))) <> rest))
        (record { id = e.id; event = e.event; payload = "" })
      ≡ (event (as_read e d), split_at 10 rest)
unfolding after_line on_line has_prefix lacks is_break
read_data ending e d rest p =
    let (h, k) = p.data_line in
    let ev : SseEvent = record { id = e.id; event = e.event; payload = "" } in
    rw
      (
        append_assoc "data: " (d <> "\n\n") rest,
        append_assoc d "\n\n" rest,
        append_assoc "\n" "\n" rest,
      )
      (rw (sym (append_assoc "data: " d ("\n" <> ("\n" <> rest)))) (
        rw
          (
            step_line ending ("data: " <> d) ("\n" <> rest) ev
                (Lacks-append is_break "data: " d (lacks-Lacks is_break "data: " refl) h),
            on_data d ev,
            k,
          )
          (blank_line ending rest e d p)))

-- `Next` on a body that begins with a frame.
pub next-frame :
    (ending : Option Error) (e : Event) (d rest : String)
    → Plain e d
    → next (new_reader (frame e d <> rest) ending) ≡ (event (as_read e d), new_reader rest ending)
unfolding frame next new_reader
next-frame ending e d rest p =
    let tail = "data: " <> (d <> ("\n" <> "\n")) in
    let more = optional_field "id: " e.id in
    rw
      (
        append_assoc (optional_field "event: " e.event) (more <> tail) rest,
        append_assoc more tail rest,
      )
      (rw
        (
          read_event ending e.event (more <> (tail <> rest)) p.name_line,
          read_id ending e.id (tail <> rest) e.event p.id_line,
          read_data ending e d rest p,
        )
        refl)

-- Each frame has a line at least.
pub frame-lines :
    (e : Event) (d rest : String)
    → length (split_at 10 rest) < length (split_at 10 (frame e d <> rest))
unfolding frame
frame-lines e d rest =
    let tail = "data: " <> (d <> ("\n" <> "\n")) in
    let more = optional_field "id: " e.id in
    rw
      (
        append_assoc (optional_field "event: " e.event) (more <> tail) rest,
        append_assoc more tail rest,
        append_assoc "data: " (d <> "\n\n") rest,
        append_assoc d "\n\n" rest,
        append_assoc "\n" "\n" rest,
      )
      (omega (
        arith,
        split_at-newline rest,
        split_at-grows 10 "\n" ("\n" <> rest),
        split_at-grows 10 d ("\n" <> ("\n" <> rest)),
        split_at-grows 10 "data: " (d <> ("\n" <> ("\n" <> rest))),
        split_at-grows 10 more ("data: " <> (d <> ("\n" <> ("\n" <> rest)))),
        split_at-grows 10 (optional_field "event: " e.event)
            (more <> ("data: " <> (d <> ("\n" <> ("\n" <> rest))))),
      ))

-- The last frame of a stream.
abbrev over_event : SseEvent
over_event = record no_event { event = "done" }

name_of_done : on_line "event: done" no_event ≡ go_on over_event
unfolding on_line has_prefix drop_prefix trim_space
name_of_done = refl

data_of_done : on_line "data: {}" over_event ≡ go_on (record over_event { payload = "{}" })
unfolding on_line has_prefix drop_prefix trim_space
data_of_done = refl

end_of_done : on_line "" (record over_event { payload = "{}" }) ≡ over
unfolding on_line has_prefix dispatch
end_of_done = refl

read_done : next_from none (split_at 10 done_frame) no_event ≡ (eof, split_at 10 "")
unfolding after_line lacks is_break
read_done =
    step_line none "event: done" "data: {}\n\n" no_event (lacks-Lacks is_break "event: done" refl)
    ∙ rw name_of_done (
        step_line none "data: {}" "\n" over_event (lacks-Lacks is_break "data: {}" refl)
        ∙ rw data_of_done
            (step_line none "" "" (record over_event { payload = "{}" }) tt ∙ rw end_of_done refl))

pub next-done_frame : (next (new_reader done_frame none)).0 ≡ eof
unfolding next new_reader
next-done_frame = rw read_done refl
