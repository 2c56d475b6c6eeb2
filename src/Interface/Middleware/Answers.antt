-- ===== src/Interface/Middleware/Answers.antt =====
-- What a client is told of the error that a handler has left.
use bzy_personal.Prelude.{◌≡◌, ap, Option, none, some}
use bzy_personal.Errors.{Code, http_status}
use bzy_personal.Errors.Chain.{Domain}
use bzy_personal.Interface.Middleware.{domain_answer, answer_of}

answered :
    (o : Option Domain) (c : Code) (d : Domain)
    → answer_of o ≡ domain_answer (http_status c) d
    → o ≡ some d
unfolding answer_of
answered none c d h = cc h
answered (some x) c d h = let same : x ≡ d = cc h in ap some same
