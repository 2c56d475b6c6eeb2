-- ===== src/Client/Ws/Dispatched.antt =====
-- Which handlers of a connection a message calls.
use bzy_personal.Prelude.{
  ◌≡◌, refl, ap, ◌∙◌, String, List, [], ◌∷◌, ◌++◌, str_eq, eq_iff, if◌then◌else◌, Bool-cases, inl,
  inr,
}
use bzy_personal.Prelude.Map.{lookup-insert}
use bzy_personal.Client.Ws.{WsMessage, WsHandler, WsConn, handlers_of, on, call_all, dispatch}

module _ {W : Type 0} where
  call_all-append :
      (hs : List (WsHandler W)) (h : WsHandler W) (msg : WsMessage) (w : W)
      → call_all (hs ++ (h ∷ [])) msg w ≡ (h msg (call_all hs msg w)).1
  unfolding call_all
  call_all-append [] h msg w = refl
  call_all-append (g ∷ hs) h msg w = call_all-append hs h msg (g msg w).1

  handlers_of-on :
      (kind j : String) (h : WsHandler W) (c : WsConn W)
      → handlers_of j (on kind h c)
        ≡ (if str_eq kind j then handlers_of kind c ++ (h ∷ []) else handlers_of j c)
  unfolding handlers_of on
  handlers_of-on kind j h c = elim (Bool-cases (str_eq kind j)) [
    | inl e ↦
        rw (lookup-insert kind j (handlers_of kind c ++ (h ∷ [])) c.handlers, e, handlers_of) refl
    | inr e ↦
        rw (lookup-insert kind j (handlers_of kind c ++ (h ∷ [])) c.handlers, e, handlers_of) refl
  ]

  -- A handler that is added is called last, after the handlers that the connection had for the type of the
  -- message, whatever they return, and for no other type.
  pub dispatch-on :
      (kind : String) (h : WsHandler W) (c : WsConn W) (msg : WsMessage) (w : W)
      → dispatch msg (on kind h c) w
        ≡ (if str_eq kind msg.kind then (h msg (dispatch msg c w)).1 else dispatch msg c w)
  unfolding dispatch
  dispatch-on kind h c msg w =
      ap (λ hs. call_all hs msg w) (handlers_of-on kind msg.kind h c)
      ∙ elim (Bool-cases (str_eq kind msg.kind)) [
        | inl e ↦ rw e (
            call_all-append (handlers_of kind c) h msg w
            ∙ ap (λ k. (h msg (call_all (handlers_of k c) msg w)).1) ((eq_iff kind msg.kind).0 e))
        | inr e ↦ rw e refl
      ]
