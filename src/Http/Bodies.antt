-- ===== src/Http/Bodies.antt =====
-- The bodies of requests that arrive in pieces: `AddPostHandler` of tools/httpServer/HttpServer.cpp.
use mathlib.Core.List.{append_assoc, append-nil}
use mathlib.Core.Option.{some-injective}
use blue_workspace_build.Base.{
  ℕ, ◌≡◌, refl, sym, ap, ◌∙◌, ◌&&◌, true, false, Option, none, some, List, [], ◌∷◌, ◌++◌, arith,
  eqb, if◌then◌else◌, Text, All, Bool-cases, inl, inr, eqb_iff,
}
use blue_workspace_build.Base.Map
use blue_workspace_build.Base.Map.{Map, nat_key}
use blue_workspace_build.Json.{◌>>=◌}
use blue_workspace_build.Http.{ApiHandler, basic_result, Piece, Service, end_body, on_data, receive}

-- The pieces of a request, one behind the other.
unfoldable pub body_of : ℕ → List Piece → Text
body_of request [] = []
body_of request (p ∷ ps) =
    let rest = body_of request ps in if eqb request p.request then p.content ++ rest else rest

-- The answers to a request.
unfoldable pub answers_of : ℕ → List (ℕ × Text) → List Text
answers_of request [] = []
answers_of request ((r, result) ∷ rs) =
    let rest = answers_of request rs in if eqb request r then result ∷ rest else rest

-- A piece that does not end a request.
abbrev pub Continues : ℕ → Piece → Type 0
Continues request p = (eqb request p.request && p.is_end) ≡ false

answers_of-append :
    (request : ℕ) (rs ss : List (ℕ × Text))
    → answers_of request (rs ++ ss) ≡ answers_of request rs ++ answers_of request ss
unfolding answers_of
answers_of-append request [] ss = refl
answers_of-append request ((r, result) ∷ rs) ss = ground (arith, answers_of-append request rs ss)

bind_inv :
    {A B : Type 0} (m : Option A) (f : A → Option B) (b : B)
    → (m >>= f) ≡ some b
    → (a : A) × (m ≡ some a) × (f a ≡ some b)
bind_inv none f b e = absurd (ground (arith, e))
bind_inv (some a) f b e = (a, refl, e)

bind_some : {A : Type 0} (m : Option A) → (m >>= λ a. some a) ≡ m
bind_some none = refl
bind_some (some a) = refl

module _ {S : Type 0} where
  -- A piece behind what its request has sent.
  abbrev buffered : Piece → Service S → Service S
  buffered p v = record v {
    buffers = Map.put p.request (Map.get_or [] p.request v.buffers ++ p.content) v.buffers;
  }

  -- What the handler of another request leaves.
  end_body-kept :
      (h : ApiHandler S) (r request : ℕ) (body : Text) (v w : Service S)
      → end_body h r body v ≡ some w
      → (w.buffers ≡ v.buffers)
        × (eqb request r ≡ false → answers_of request w.answers ≡ answers_of request v.answers)
  unfolding end_body answers_of
  end_body-kept h r request body v w e =
      let ((ok, result, s), ran, made) = bind_inv (h.run body basic_result v.state) _ w e in
      let same = some-injective _ _ made in
      (
        ap (λ u. u.buffers) (sym same),
        λ other.
            ap (λ u. answers_of request u.answers) (sym same)
            ∙ answers_of-append request v.answers _
            ∙ rw (other) (append-nil _),
      )

  module _ (handler_of : ℕ → ApiHandler S) where
    buffer-put :
        (p : Piece) (request : ℕ) (buffers : Map ℕ Text)
        → Map.get_or [] request
            (Map.put p.request (Map.get_or [] p.request buffers ++ p.content) buffers)
          ≡ Map.get_or [] request buffers ++ body_of request (p ∷ [])
    unfolding body_of
    buffer-put p request buffers = ground (
      arith,
      Map.get_or-put [] (Map.get_or [] p.request buffers ++ p.content) p.request request buffers,
      append-nil (Map.get_or [] request buffers),
      append-nil p.content,
      eqb_iff request p.request,
      eqb_iff p.request request,
    )

    on_data-kept :
        (p : Piece) (request : ℕ) (v w : Service S)
        → on_data handler_of p v ≡ some w
        → (Map.get_or [] request w.buffers
            ≡ Map.get_or [] request v.buffers ++ body_of request (p ∷ []))
          × (Continues request p → answers_of request w.answers ≡ answers_of request v.answers)
    unfolding on_data
    on_data-kept p request v w e = elim (Bool-cases p.is_end) [
      | inl ends ↦
          let (kept, quiet) =
            end_body-kept (handler_of p.request) p.request request
              (Map.get_or [] p.request v.buffers ++ p.content) (buffered p v) w
              (sym (rw (on_data, ends) refl) ∙ e) in
          (
            ap (Map.get_or [] request) kept ∙ buffer-put p request v.buffers,
            λ h. quiet (ground (arith, h, ends)),
          )
      | inr goes ↦
          let same : buffered p v ≡ w = some-injective _ _ (sym (rw (on_data, goes) refl) ∙ e) in
          (
            ap (λ u. Map.get_or [] request u.buffers) (sym same) ∙ buffer-put p request v.buffers,
            λ h. ap (λ u. answers_of request u.answers) (sym same),
          )
    ]

    body_of-append :
        (p : Piece) (ps : List Piece) (request : ℕ)
        → body_of request (p ∷ []) ++ body_of request ps ≡ body_of request (p ∷ ps)
    unfolding body_of
    body_of-append p ps request = elim (Bool-cases (eqb request p.request)) [
      | inl e ↦ rw (e, append-nil p.content) refl
      | inr e ↦ rw (e) refl
    ]

    receive-kept :
        (ps : List Piece) (request : ℕ) (v w : Service S)
        → receive handler_of ps v ≡ some w
        → (Map.get_or [] request w.buffers ≡ Map.get_or [] request v.buffers ++ body_of request ps)
          × (All (Continues request) ps
              → answers_of request w.answers ≡ answers_of request v.answers)
    unfolding receive body_of
    receive-kept [] request v w e =
        let same = some-injective _ _ e in
        (
          rw (sym same) (sym (append-nil (Map.get_or [] request v.buffers))),
          λ _. rw (sym same) refl,
        )
    receive-kept (p ∷ ps) request v w e =
        let (u, f, g) = bind_inv (on_data handler_of p v) (receive handler_of ps) w e in
        let (here, quiet) = on_data-kept p request v u f in
        let (later, silent) = receive-kept ps request u w g in
        (
          later
              ∙ ap (λ xs. xs ++ body_of request ps) here
              ∙ append_assoc (Map.get_or [] request v.buffers) (body_of request (p ∷ []))
                  (body_of request ps)
              ∙ ap (λ xs. Map.get_or [] request v.buffers ++ xs) (body_of-append p ps request),
          λ h. silent h.1 ∙ quiet h.0,
        )

    receive-append :
        (ps qs : List Piece) (v w : Service S)
        → receive handler_of ps v ≡ some w
        → receive handler_of (ps ++ qs) v ≡ receive handler_of qs w
    unfolding receive
    receive-append [] qs v w e = ap (receive handler_of qs) (some-injective _ _ e)
    receive-append (p ∷ ps) qs v w e =
        let (u, f, g) = bind_inv (on_data handler_of p v) (receive handler_of ps) w e in
        rw (f) (receive-append ps qs u w g)

    -- However the pieces of the bodies of several requests interleave: while those of a request that
    -- has sent nothing before do not end it, it gets no answer, and with the last one its handler is
    -- run on its pieces, one behind the other, with nothing of the others.
    pub receive-body_of :
        (ps : List Piece) (request : ℕ) (last : Text) (v w : Service S)
        → Map.get_or [] request v.buffers ≡ []
        → All (Continues request) ps
        → receive handler_of ps v ≡ some w
        → let body = body_of request ps ++ last in
          (answers_of request w.answers ≡ answers_of request v.answers)
          × (receive handler_of
                (ps ++ record { request = request; content = last; is_end = true } ∷ [])
                v
              ≡ end_body
                  (handler_of request)
                  request
                  body
                  (record w { buffers = Map.put request body w.buffers }))
    unfolding receive on_data
    receive-body_of ps request last v w fresh pending e =
        let (sent, quiet) = receive-kept ps request v w e in
        let sent_here : Map.get_or [] request w.buffers ≡ body_of request ps =
          sent ∙ ap (λ xs. xs ++ body_of request ps) fresh in
        (quiet pending, receive-append ps _ v w e ∙ bind_some _ ∙ rw (sent_here) refl)
