-- ===== src/Brain/Rag/Examples.antt =====
-- A document of two texts, over a cache that holds one of them.
use bzy_personal.Prelude.{
  ◌≡◌, refl, sym, ap, ◌∙◌, inl, inr, ◌⊎◌, ◌==◌, arith, String, List, [], ◌∷◌, map, All, Option,
  none, some, str_eq, if◌then◌else◌, Bool-cases, eq_iff,
}
use bzy_personal.Prelude.Map.{Map, lookup, insert, lookup-insert}
use bzy_personal.Prelude.Texts.{
  ◌<>◌, drop_prefix, trim_space, trim_left, trim_right, is_blank, is_space,
}
use bzy_personal.Prelude.Texts.Laws.{drop_prefix-append}
use bzy_personal.Runtime.{Env}
use bzy_personal.Errors.{Error, text, Result, ok, err}
use bzy_personal.Brain.Providers.{Provider}
use bzy_personal.Brain.Embedding.{Vec, Service, embed}
use bzy_personal.Brain.Embedding.Cached.{Sound, Good, embed-map}
use bzy_personal.Brain.Rag.{Document, ChunkerConfig, Pipeline, chunk_text, ingest}
use bzy_personal.Brain.Rag.Chunks.{Unbroken, chunk_text-document_text}
use bzy_personal.Brain.Rag.Stored.{numbered, identified, ingest-stores}

abbrev one : Vec
one = 1 ∷ []

abbrev two : Vec
two = 2 ∷ []

abbrev meaning : String → Vec
meaning t = if str_eq t "alpha" then one else two

-- The world is the content of the cache.
abbrev still : Env (Map String)
still = record { now = λ w. (0, w); fresh = λ w. ("d1", w) }

abbrev embedder : Provider (Map String)
embedder = record {
  id = "embedder";
  chat = λ req w. (err (text "no chat"), w);
  embed = λ ts w. (ok (map meaning ts), w);
}

abbrev read : Option String → Result String
read none = err (text "nil")
read (some raw) = ok raw

abbrev marshal : Vec → Result String
marshal [] = err (text "empty")
marshal (x ∷ []) = if x == 1 then ok "[1]" else if x == 2 then ok "[2]" else err (text "other")
marshal (x ∷ y ∷ v) = err (text "long")

abbrev unmarshal : String → Result Vec
unmarshal raw =
    if str_eq raw "[1]" then ok one else if str_eq raw "[2]" then ok two else err (text "bad")

unmarshal-marshal : (v : Vec) (raw : String) → marshal v ≡ ok raw → unmarshal raw ≡ ok v
unmarshal-marshal [] raw e = cc e
unmarshal-marshal (x ∷ []) raw e = elim (Bool-cases (x == 1)) [
  | inl p ↦
      let is : x ≡ 1 = ground (arith, p) in
      let said : ok "[1]" ≡ ok raw = rw p at e in
      let same : "[1]" ≡ raw = cc said in ap unmarshal (sym same) ∙ ap (λ n. ok (n ∷ [])) (sym is)
  | inr p ↦ elim (Bool-cases (x == 2)) [
    | inl q ↦
        let is : x ≡ 2 = ground (arith, q) in
        let said : ok "[2]" ≡ ok raw = rw (p, q) at e in
        let same : "[2]" ≡ raw = cc said in ap unmarshal (sym same) ∙ ap (λ n. ok (n ∷ [])) (sym is)
    | inr q ↦ let no : err (text "other") ≡ ok raw = rw (p, q) at e in cc no
  ]
]
unmarshal-marshal (x ∷ y ∷ v) raw e = cc e

abbrev service : Service (Map String)
service = record {
  provider = some embedder;
  cache = record {
    get = λ k w. (read (lookup k w), w);
    set = λ k raw ttl w. (none, insert k raw w);
    hash = λ t. t;
    marshal = marshal;
    unmarshal = unmarshal;
  };
  cache_ttl = 0;
}

abbrev Any : String → Type 0
Any t = Unit

read-lookup :
    (o : Option String) (w : Map String)
    → ((raw : String) × (o ≡ some raw)
        × (◌≡◌ {A = Result String × Map String} (read o, w) (ok raw, w)))
      ⊎ (e : Error) × (◌≡◌ {A = Result String × Map String} (read o, w) (err e, w))
read-lookup none w = inr (text "nil", refl)
read-lookup (some raw) w = inl (raw, refl, refl)

service-Sound : Sound service meaning Any
service-Sound = record {
  provider = embedder;
  held = λ w k. lookup k w;
  is_there = refl;
  embeds = λ ts w. (w, refl, (λ k raw e. e));
  reads = λ key w. (w, (λ k raw e. e), read-lookup (lookup key w) w);
  writes = λ key new ttl w k raw there. elim (Bool-cases (str_eq key k)) [
    | inl p ↦
        let q : (if str_eq key k then some new else lookup k w) ≡ some raw =
          sym (lookup-insert key k new w) ∙ there in
        let same : some new ≡ some raw = rw p at q in inr ((eq_iff key k).0 p, cc same)
    | inr p ↦
        let q : (if str_eq key k then some new else lookup k w) ≡ some raw =
          sym (lookup-insert key k new w) ∙ there in
        inl (rw p at q)
  ];
  decodes = unmarshal-marshal;
  distinct = λ t u a b e. e;
}

-- The cache holds the text "alpha".
abbrev alpha_held : Map String
alpha_held = ("embed:alpha", "[1]") ∷ []

alpha_held-Good : Good service meaning Any service-Sound alpha_held
unfolding lookup service-Sound drop_prefix
alpha_held-Good t raw a there = elim (Bool-cases (str_eq "embed:alpha" ("embed:" <> t))) [
  | inl p ↦
      let said : some "[1]" ≡ some raw = rw p at there in
      let same : "[1]" ≡ raw = cc said in
      let is : "alpha" ≡ t =
        ap (drop_prefix "embed:") ((eq_iff "embed:alpha" ("embed:" <> t)).0 p)
        ∙ drop_prefix-append "embed:" t in
      inl (ap unmarshal (sym same) ∙ ap (λ x. ok (meaning x)) is)
  | inr p ↦ let no : none ≡ some raw = rw p at there in cc no
]

embed-map_example :
    (w' : Map String) × (embed service ("beta" ∷ "alpha" ∷ []) alpha_held
      ≡ some (ok (two ∷ one ∷ []), w'))
    × Good service meaning Any service-Sound w'
embed-map_example =
    embed-map service meaning Any service-Sound ("beta" ∷ "alpha" ∷ []) alpha_held (tt, (tt, tt))
      alpha_held-Good

abbrev settings : ChunkerConfig
settings = record { strategy = "paragraph"; chunk_size = 0; overlap = 0 }

-- Two texts, the second one of two lines, and a blank one.
abbrev texts : List String
texts = "alpha" ∷ "  be\nta " ∷ " " ∷ []

texts-Unbroken : All Unbroken texts
texts-Unbroken = (
  (refl, (refl, (refl, (refl, refl)))),
  ((refl, (refl, (refl, (refl, (refl, (refl, (refl, refl))))))), (refl, tt)),
)

chunk_text-document_text_example :
    chunk_text "alpha\n\n  be\nta \n\n " settings ≡ "alpha" ∷ "be\nta" ∷ []
unfolding trim_space trim_left trim_right is_space is_blank
chunk_text-document_text_example = chunk_text-document_text texts settings texts-Unbroken

abbrev pipeline : Pipeline (Map String)
pipeline = record {
  embedder = service;
  vec_store = record { upsert_batch = λ vs w. (none, w); search = λ q w. (ok [], w) };
  chat_provider = some embedder;
}

abbrev letters : Document
letters = record {
  id = "";
  title = "letters";
  content = "alpha\n\n  be\nta \n\n ";
  source = "";
  metadata = [];
}

ingest-stores_example :
    (w' : Map String) × (let doc' = identified still letters alpha_held in
      let (e, w2) =
        pipeline.vec_store.upsert_batch (numbered meaning doc' 0 ("alpha" ∷ "be\nta" ∷ [])) w' in
      ingest still pipeline letters settings alpha_held ≡ some (e, doc', w2))
    × Good service meaning Any service-Sound w'
unfolding trim_space trim_left trim_right is_space is_blank
ingest-stores_example =
    ingest-stores still pipeline meaning Any service-Sound (λ w k raw e. e) letters settings texts
      alpha_held alpha_held-Good refl texts-Unbroken (tt, (tt, tt))
