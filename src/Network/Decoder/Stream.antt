-- ===== src/Network/Decoder/Stream.antt =====
-- A stream of messages that arrives in pieces, cut again by `Decode`.
use zylib.Prelude.{
  ℕ, zero, suc, ◌<◌, ◌≡◌, refl, sym, ap, ◌∙◌, ◌≢◌, inl, inr, true, none, some, List, [], ◌∷◌, ◌++◌,
  map, append-nil, append_assoc, arith, length, length-append, append_split, append-ne-nil, concat,
  All,
}
use zylib.Network.Decoder.{Message, decode_once, decode}
use zylib.Network.Decoder.Head.{frame, Fits, decode_once-frame, decode_once-part, length-frame}

-- The bytes that a sender of these bodies puts on the wire.
abbrev pub stream : List (List ℕ) → List ℕ
stream bodies = concat (map (λ body. (frame body).buffer) bodies)

-- A message that has not arrived whole: `part` is what is there of it.
pub record Partial (part : List ℕ) : Type 0 where
  pub body : List ℕ
  pub missing : List ℕ
  pub fits : Fits body
  pub whole : part ++ missing ≡ (frame body).buffer
  pub some_missing : missing ≢ []

-- What `Decode` makes of a buffer `now` when `later` is still to come: it takes off the first
-- bodies, `taken`, and leaves a rest that holds no whole message.
pub record Cut (bodies : List (List ℕ)) (part now later : List ℕ) (fuel : ℕ) (vec : List Message)
    : Type 0 where
  pub taken : List (List ℕ)
  pub left : List (List ℕ)
  pub rest : List ℕ
  pub all : bodies ≡ taken ++ left
  pub result :
      decode true fuel (record { buffer = now }) vec
      ≡ some (record { buffer = rest }, vec ++ map frame taken)
  pub quiet : decode_once true (record { buffer = rest }) ≡ none
  pub next : rest ++ later ≡ stream left ++ part

-- A buffer with no whole message is left as it is.
decode-quiet :
    (bodies : List (List ℕ)) (part now later : List ℕ) (fuel : ℕ) (vec : List Message)
    → decode_once true (record { buffer = now }) ≡ none
    → now ++ later ≡ stream bodies ++ part
    → Cut bodies part now later (suc fuel) vec
unfolding decode
decode-quiet bodies part now later fuel vec q e = record {
  taken = [];
  left = bodies;
  rest = now;
  all = refl;
  result = rw (q, decode, append-nil vec);
  quiet = q;
  next = e;
}

-- A whole message at the front goes to the output.
decode-next :
    (body : List ℕ) (bodies : List (List ℕ)) (part now later : List ℕ) (fuel : ℕ)
    (vec : List Message)
    → Fits body
    → Cut bodies part now later fuel (vec ++ frame body ∷ [])
    → Cut (body ∷ bodies) part ((frame body).buffer ++ now) later (suc fuel) vec
unfolding decode
decode-next body bodies part now later fuel vec h c = record {
  taken = body ∷ c.taken;
  left = c.left;
  rest = c.rest;
  all = ap (◌∷◌ body) c.all;
  result = rw (
    decode_once-frame body now h,
    decode,
    c.result,
    append_assoc vec (frame body ∷ []) (map frame c.taken),
  );
  quiet = c.quiet;
  next = c.next;
}

-- Whatever part of the stream has arrived, `Decode` takes off exactly the messages that are whole,
-- with one round more than there are bytes.
pub decode-Cut :
    (bodies : List (List ℕ)) (part now later : List ℕ) (fuel : ℕ) (vec : List Message)
    → All Fits bodies
    → Partial part
    → now ++ later ≡ stream bodies ++ part
    → length now < fuel
    → Cut bodies part now later fuel vec
decode-Cut bodies part now later zero vec fit p e h = absurd (omega arith)
decode-Cut [] part now later (suc fuel) vec fit p e h =
    decode-quiet [] part now later fuel vec
      (decode_once-part p.body now (later ++ p.missing) p.fits
        (sym (append_assoc now later p.missing) ∙ (rw e p.whole))
        (append-ne-nil later p.missing p.some_missing))
      e
decode-Cut (body ∷ bodies) part now later (suc fuel) vec fit p e h =
    elim (append_split now later (frame body).buffer (stream bodies ++ part)
      (e ∙ append_assoc (frame body).buffer (stream bodies) part)) [
        | inl (more, is, rest) ↦ rw is (
            decode-next body bodies part more later fuel vec fit.0 (
              decode-Cut bodies part more later fuel (vec ++ frame body ∷ []) fit.1 p rest (
                omega (
                  arith,
                  ap length is,
                  length-append (frame body).buffer more,
                  length-frame body,
                ))))
        | inr (missing, is, ne) ↦
            decode-quiet (body ∷ bodies) part now later fuel vec
              (decode_once-part body now missing fit.0 (sym is) ne) e
      ]

-- No whole message is left in a quiet rest.
pub left-nil :
    (taken left : List (List ℕ)) (rest part : List ℕ)
    → All Fits (taken ++ left)
    → decode_once true (record { buffer = rest }) ≡ none
    → rest ≡ stream left ++ part
    → left ≡ []
left-nil (body ∷ taken) left rest part fit q e = left-nil taken left rest part fit.1 q e
left-nil [] [] rest part fit q e = refl
left-nil [] (body ∷ left) rest part fit q e = cc (q, whole)
  where
    whole :
        decode_once true (record { buffer = rest })
        ≡ some (frame body, record { buffer = stream left ++ part })
    whole =
        rw (e, append_assoc (frame body).buffer (stream left) part)
          (decode_once-frame body (stream left ++ part) fit.0)

-- With nothing more to come, every body is taken and the partial message is the rest.
pub Cut-end :
    {bodies : List (List ℕ)} {part now : List ℕ} {fuel : ℕ} {vec : List Message}
    → All Fits bodies
    → (c : Cut bodies part now [] fuel vec) → (c.taken ≡ bodies) × (c.rest ≡ part)
Cut-end {bodies} {part} fit c =
    (sym (append-nil c.taken) ∙ sym (c.all ∙ ap (◌++◌ c.taken) done), is_rest ∙ rw done)
  where
    is_rest : c.rest ≡ stream c.left ++ part
    is_rest = sym (append-nil c.rest) ∙ c.next

    done : c.left ≡ []
    done = left-nil c.taken c.left c.rest part (rw c.all at fit) c.quiet is_rest
