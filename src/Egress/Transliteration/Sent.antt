-- ===== src/Egress/Transliteration/Sent.antt =====
-- The requests of a transliteration are its chunks, in order.
use janasunani.Base.{
  ℕ, suc, ◌≡◌, ◌≤◌, refl, ap, ◌∙◌, true, false, List, [], ◌∷◌, ◌++◌, Text, codes, length, take,
  arith, Option-cases, Bool-cases, inl, inr,
}
use janasunani.Serving.Signals.{non_empty}
use janasunani.Egress.Http.{Payload, Request, post, Result, ok, err, as_text}
use janasunani.Egress.Audit.{SarvamAuditContext}
use janasunani.Egress.Client.{wait_for_submission_slot}
use janasunani.Egress.Client.State.{Adapter, Outside, World, Fault, Call, M, ◌>>=◌, return, audit}
use janasunani.Egress.Job.Admitted.{may_send, admit->>=}
use janasunani.Egress.Transliteration.{
  encode, chunks, Languages, on_transliterated, post_transliterate, chunk_call, output, join_rest,
  transliterate_chunks, transliterate,
}
use janasunani.Egress.Transliteration.Chunks.{IsChunked, chunks-IsChunked}

-- The requests for some parts, the last one first, before older ones.
unfoldable pub push : Text → List Text → List Request → List Request
push url [] requests = requests
push url (part ∷ parts) requests = push url parts (post url (encode part) ∷ requests)

-- A call that ended well has sent all its parts.
abbrev pub Completed : {A : Type 0} → Result Fault A → ℕ → ℕ → Type 0
Completed (ok _) count total = count ≡ total
Completed (err _) count total = count ≤ total

pub record IsSent {A : Type 0} (url : Text) (parts : List Text) (w : World)
    (r : Result Fault A × World) : Type 0 where
  pub count : ℕ
  pub sent : r.1.requests ≡ push url (take count parts) w.requests
  pub complete : Completed r.0 count (length parts)

Completed-suc :
    {A : Type 0} (r : Result Fault A) (count total : ℕ)
    → Completed r count total
    → Completed r (suc count) (suc total)
Completed-suc (ok a) count total h = omega (arith, h)
Completed-suc (err e) count total h = omega (arith, h)

-- What follows a request for the first part sends the others.
rest-IsSent :
    {A : Type 0} (url chunk : Text) (rest : List Text) (w v : World) (r : Result Fault A × World)
    → v.requests ≡ post url (encode chunk) ∷ w.requests
    → IsSent url rest v r
    → IsSent url (chunk ∷ rest) w r
unfolding push
rest-IsSent url chunk rest w v r posted s = record {
  count = suc s.count;
  sent = s.sent ∙ ap (push url (take s.count rest)) posted;
  complete = Completed-suc r.0 s.count (length rest) s.complete;
}

after_first :
    {A B : Type 0} (url chunk : Text) (rest : List Text) (w v : World) (r : Result Fault A)
    (f : A → M B)
    → v.requests ≡ post url (encode chunk) ∷ w.requests
    → ((a : A) (u : World) → IsSent url rest u (f a u))
    → IsSent url
        (chunk ∷ rest)
        w
        (elim r as (λ _. Result Fault B × World) [ ok a ↦ f a v | err e ↦ (err e, v) ])
unfolding push
after_first url chunk rest w v (ok a) f posted h =
    rest-IsSent url chunk rest w v (f a v) posted (h a v)
after_first url chunk rest w v (err e) f posted h = record {
  count = 1;
  sent = posted;
  complete = omega arith;
}

IsSent-first :
    {A B : Type 0} (url chunk : Text) (rest : List Text) (w : World) (m : M A) (f : A → M B)
    → (m w).1.requests ≡ post url (encode chunk) ∷ w.requests
    → ((a : A) (u : World) → IsSent url rest u (f a u))
    → IsSent url (chunk ∷ rest) w ((m >>= f) w)
unfolding ◌>>=◌
IsSent-first url chunk rest w m f = after_first url chunk rest w (m w).1 (m w).0 f

-- What is joined to the result changes nothing of what was sent.
after_return :
    (url : Text) (parts : List Text) (w v : World) (r : Result Fault Text) (f : Text → Text)
    → IsSent url parts w (r, v)
    → IsSent url parts w
        (elim r as (λ _. Result Fault Text × World) [ ok a ↦ (ok (f a), v) | err e ↦ (err e, v) ])
after_return url parts w v (ok text) f s = record {
  count = s.count;
  sent = s.sent;
  complete = s.complete;
}
after_return url parts w v (err e) f s = s

module _ (env : Outside) (adapter : Adapter) where
  abbrev pub text_url : Text
  text_url = adapter.route.endpoint ++ codes "/transliterate"

  post_transliterate-requests :
      (call : Call) (chunk : Text) (w : World)
      → (post_transliterate env adapter call chunk w).1.requests
        ≡ post text_url (encode chunk) ∷ w.requests
  unfolding post_transliterate ◌>>=◌ wait_for_submission_slot on_transliterated audit
  post_transliterate-requests call chunk w = ground arith

  join_rest-IsSent :
      (again : M Text) (parts : List Text) (payload : Payload) (w : World)
      → IsSent text_url parts w (again w)
      → IsSent text_url parts w (join_rest env adapter again payload w)
  unfolding join_rest ◌>>=◌ push
  join_rest-IsSent again parts payload w s =
      elim (Option-cases (as_text (output env adapter payload))) [
        | inl none' ↦
            rw (none', join_rest) (record { count = 0; sent = refl; complete = omega arith })
        | inr (text, e) ↦
            rw (e, join_rest)
              (after_return text_url parts w (again w).1 (again w).0 (λ t. text ++ t) s)
      ]

  module _ (languages : Languages) (context : SarvamAuditContext) where
    transliterate_chunks-IsSent :
        (count : ℕ) (parts : List Text) (index : ℕ) (w : World)
        → IsSent text_url parts w
            (transliterate_chunks env adapter languages context count parts index w)
    unfolding transliterate_chunks push
    transliterate_chunks-IsSent count [] index w = record {
      count = 0;
      sent = refl;
      complete = refl;
    }
    transliterate_chunks-IsSent count (chunk ∷ rest) index w =
        IsSent-first text_url chunk rest w _ _
          (post_transliterate-requests (chunk_call env adapter languages context count chunk index)
            chunk w)
          λ payload u.
            join_rest-IsSent
              (transliterate_chunks env adapter languages context count rest (suc index)) rest
              payload u (transliterate_chunks-IsSent count rest (suc index) u)

    -- The requests of `transliterate` are posts of the encoded chunks of the text, in order and
    -- from the first one, all of them where it returns; the chunks joined are the text, each has
    -- from 1 to 1000 characters, and each but the last has 1000.
    pub transliterate-IsSent :
        (text : Text) (w : World)
        → IsSent text_url (chunks text) w (transliterate env adapter text languages context w)
          × IsChunked text (chunks text)
    unfolding transliterate push
    transliterate-IsSent text w = (
      rw (admit->>= env adapter _ w) (elim (Bool-cases (may_send adapter)) [
        | inl may ↦ rw may (sends text)
        | inr not' ↦ rw not' (record { count = 0; sent = refl; complete = omega arith })
      ]),
      chunks-IsChunked text,
    )
      where
        sends :
            (text : Text)
            → IsSent text_url (chunks text) w (
                (elim (non_empty text) as (λ _. M Text) [
                  | false ↦ return []
                  | true ↦
                      transliterate_chunks env adapter languages context
                        (length (chunks text))
                        (chunks text)
                        0
                ])
                  w)
        sends [] = record { count = 0; sent = refl; complete = refl }
        sends (c ∷ t) = transliterate_chunks-IsSent (length (chunks (c ∷ t))) (chunks (c ∷ t)) 0 w
