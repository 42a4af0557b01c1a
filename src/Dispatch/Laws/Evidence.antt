-- ===== src/Dispatch/Laws/Evidence.antt =====
-- What a recorded outcome says about the action.
use personal_world.Prelude.{
  ℕ, ◌≤◌, ◌<◌, Bool, true, false, Option, none, some, [], ◌∷◌, subst, ◌≡◌, ◌≢◌, ◌↔◌, ◌⊎◌, inl, inr,
  refl, arith, any, elem, nat_eq, length, Text, Bool-cases,
}
use personal_world.Value.{Value, null, num, str, arr, bool, obj, Fields, get_field, nothing_there}
use personal_world.Config.Models.{Provider, ProviderKind, room0, http, reference, Request}
use personal_world.Runner.Redact.{length-take-le}
use personal_world.Dispatch.Rows.{
  Dispatcher, succeeded, failed, Reply, response, refused, other, RawResponse, Codec,
}
use personal_world.Dispatch.Outcome.{
  classify_outcome, room_receipt, receipt_of_doc, receipt_of_flag, not_executed_4xx,
}
use personal_world.Dispatch.Send.{verdict, Verdict, evidence_of, note_of, summary_text}

-- The room's answer is a readable receipt with this `ok`.
abbrev pub SaysOk : Codec → RawResponse → Bool → Fields → Type 0
SaysOk codec r b doc = (codec.decode r.body ≡ some (obj doc)) × (get_field "ok" doc ≡ some (bool b))

-- The room refused, and its `changed` is there and empty.
abbrev pub SaysUnchanged : Codec → RawResponse → Type 0
SaysUnchanged codec r =
    (doc : Fields) × (v : Value) × SaysOk codec r false doc
    × (get_field "changed" doc ≡ some v)
    × (nothing_there v ≡ true)

-- A client error that leaves no doubt that the action did not run
abbrev pub RefusalCode : ℕ → Type 0
RefusalCode code =
    ((400 ≤ code) × (code ≤ 406))
    ⊎ ((410 ≤ code) × (code ≤ 411))
    ⊎ ((413 ≤ code) × (code ≤ 415))
    ⊎ ((421 ≤ code) × (code ≤ 422))
    ⊎ (code ≡ 426)
    ⊎ (code ≡ 428)
    ⊎ (code ≡ 431)

-- The evidence of an answer that the action did not run
abbrev pub DidNotRun : Dispatcher → Provider → RawResponse → Type 0
DidNotRun d p r =
    RefusalCode r.status_code
    ⊎ ((200 ≤ r.status_code) × (r.status_code < 300) × (p.kind ≡ room0) × SaysUnchanged d.codec r)

refusal_code : (code : ℕ) → (elem code not_executed_4xx ≡ true) ↔ RefusalCode code
unfolding elem any
refusal_code code = (λ h. ground (arith, h), λ h. ground (arith, h))

room_unchanged :
    (codec : Codec) (r : RawResponse)
    → (room_receipt codec r).state ≡ failed
    → SaysUnchanged codec r
unfolding room_receipt
room_unchanged codec r h = of_doc (codec.decode r.body) refl h
  where
    of_flag :
        (doc : Fields) (flag changed : Option Value)
        → get_field "ok" doc ≡ flag
        → get_field "changed" doc ≡ changed
        → codec.decode r.body ≡ some (obj doc)
        → (receipt_of_flag flag doc).state ≡ failed
        → SaysUnchanged codec r
    of_flag doc none changed e f g h = cc
    of_flag doc (some (bool true)) changed e f g h = cc
    of_flag doc (some (bool false)) none e f g h = ground (arith, f)
    of_flag doc (some (bool false)) (some v) e f g h = (doc, v, (g, e), f, ground (arith, f))
    of_flag doc (some (null)) changed e f g h = cc
    of_flag doc (some (num n)) changed e f g h = cc
    of_flag doc (some (str s)) changed e f g h = cc
    of_flag doc (some (arr vs)) changed e f g h = cc
    of_flag doc (some (obj fs)) changed e f g h = cc

    of_doc :
        (doc : Option Value)
        → codec.decode r.body ≡ doc
        → (receipt_of_doc doc).state ≡ failed
        → SaysUnchanged codec r
    of_doc none e h = cc
    of_doc (some (obj doc)) e h =
        of_flag doc (get_field "ok" doc) (get_field "changed" doc) refl refl e h
    of_doc (some null) e h = cc
    of_doc (some (bool b)) e h = cc
    of_doc (some (num n)) e h = cc
    of_doc (some (str s)) e h = cc
    of_doc (some (arr vs)) e h = cc

unchanged_room :
    (codec : Codec) (r : RawResponse)
    → SaysUnchanged codec r
    → (room_receipt codec r).state ≡ failed
unfolding room_receipt
unchanged_room codec r (doc, v, (e, f), g, h) = ground (arith, e, f, g, h)

-- An answer is recorded as FAILED exactly where it shows that the action did not run: it is a client
-- error that leaves no doubt (400 to 406, 410, 411, 413 to 415, 421, 422, 426, 428 or 431), or a room
-- answers 2xx with a receipt that says that it refused and that nothing changed.
pub failed-DidNotRun :
    (d : Dispatcher) (p : Provider) (r : RawResponse)
    → ((verdict d p (response r)).state ≡ failed) ↔ DidNotRun d p r
unfolding verdict classify_outcome
failed-DidNotRun d p r = (forth, back)
  where
    forth : (verdict d p (response r)).state ≡ failed → DidNotRun d p r
    forth h = elim (Bool-cases (elem r.status_code not_executed_4xx)) [
      | inl e ↦ inl ((refusal_code r.status_code).0 e)
      | inr e ↦ inr (
        ground (arith, h, e),
        ground (arith, h, e),
        ground (arith, h, e),
        room_unchanged d.codec r (ground (arith, h, e)),
      )
    ]

    back : DidNotRun d p r → (verdict d p (response r)).state ≡ failed
    back (inl c) = let e = (refusal_code r.status_code).1 c in ground (arith, e, c)
    back (inr (a, b, k, u)) = ground (arith, a, b, k, unchanged_room d.codec r u)

room_ok :
    (codec : Codec) (r : RawResponse)
    → (room_receipt codec r).state ≡ succeeded
    → (doc : Fields) × SaysOk codec r true doc
unfolding room_receipt
room_ok codec r h = of_doc (codec.decode r.body) refl h
  where
    of_flag :
        (doc : Fields) (flag : Option Value)
        → get_field "ok" doc ≡ flag
        → codec.decode r.body ≡ some (obj doc)
        → (receipt_of_flag flag doc).state ≡ succeeded
        → (doc' : Fields) × SaysOk codec r true doc'
    of_flag doc (some (bool true)) e g h = (doc, (g, e))
    of_flag doc (some (bool false)) e g h = absurd (ground arith)
    of_flag doc none e g h = cc
    of_flag doc (some null) e g h = cc
    of_flag doc (some (num n)) e g h = cc
    of_flag doc (some (str s)) e g h = cc
    of_flag doc (some (arr vs)) e g h = cc
    of_flag doc (some (obj fs)) e g h = cc

    of_doc :
        (doc : Option Value)
        → codec.decode r.body ≡ doc
        → (receipt_of_doc doc).state ≡ succeeded
        → (doc' : Fields) × SaysOk codec r true doc'
    of_doc (some (obj doc)) e h = of_flag doc (get_field "ok" doc) refl e h
    of_doc none e h = cc
    of_doc (some null) e h = cc
    of_doc (some (bool b)) e h = cc
    of_doc (some (num n)) e h = cc
    of_doc (some (str s)) e h = cc
    of_doc (some (arr vs)) e h = cc

ok_room :
    (codec : Codec) (r : RawResponse) (doc : Fields)
    → SaysOk codec r true doc
    → (room_receipt codec r).state ≡ succeeded
unfolding room_receipt
ok_room codec r doc h = rw (h.0, h.1)

-- SUCCEEDED is recorded exactly for a 2xx answer that, from a room, is a readable receipt with `ok`.
succeeded_iff :
    (d : Dispatcher) (p : Provider) (r : Reply)
    → ((verdict d p r).state ≡ succeeded) ↔ (
        (x : RawResponse) × (r ≡ response x)
        × (200 ≤ x.status_code)
        × (x.status_code < 300)
        × ((p.kind ≢ room0) ⊎ ((doc : Fields) × SaysOk d.codec x true doc)))
unfolding verdict classify_outcome
succeeded_iff d p (refused e) = (λ h. absurd (ground arith), λ h. cc (h.1))
succeeded_iff d p other = (λ h. cc, λ h. cc (h.1))
succeeded_iff d p (response r) = (
  λ h. (r, refl, ground arith, ground arith, forth p.kind refl h),
  λ h. reverse h.0 h.1 h.2 h.3 h.4,
)
  where
    at_kind :
        (k : ProviderKind)
        → p.kind ≡ k
        → 200 ≤ r.status_code
        → r.status_code < 300
        → ((p.kind ≢ room0) ⊎ ((doc : Fields) × SaysOk d.codec r true doc))
        → (verdict d p (response r)).state ≡ succeeded
    at_kind http e a b c = ground arith
    at_kind reference e a b c = ground arith
    at_kind room0 e a b (inl elsewhere) = absurd (elsewhere e)
    at_kind room0 e a b (inr (doc, says)) = ground (arith, ok_room d.codec r doc says)

    forth :
        (k : ProviderKind)
        → p.kind ≡ k
        → (verdict d p (response r)).state ≡ succeeded
        → (p.kind ≢ room0) ⊎ ((doc : Fields) × SaysOk d.codec r true doc)
    forth http e h = inl (λ q. cc (e, q))
    forth reference e h = inl (λ q. cc (e, q))
    forth room0 e h = inr (room_ok d.codec r (ground arith))

    reverse :
        (x : RawResponse)
        → response r ≡ response x
        → 200 ≤ x.status_code
        → x.status_code < 300
        → ((p.kind ≢ room0) ⊎ ((doc : Fields) × SaysOk d.codec x true doc))
        → (verdict d p (response r)).state ≡ succeeded
    reverse x e a b c =
        subst
          (λ (y : RawResponse).
            200 ≤ y.status_code
            → y.status_code < 300
            → ((p.kind ≢ room0) ⊎ ((doc : Fields) × SaysOk d.codec y true doc))
            → (verdict d p (response r)).state ≡ succeeded)
          (same e) (at_kind p.kind refl) a b c
      where
        same : response r ≡ response x → r ≡ x
        same q = cc

-- The evidence never holds more than 300 code points of a note and 200 of a room's summary.
pub evidence_bounded :
    (d : Dispatcher) (r : Request) (reply : Reply) (v : Verdict)
    → (length (evidence_of d r reply v).note ≤ 300)
      × (length (evidence_of d r reply v).summary ≤ 200)
unfolding evidence_of
evidence_bounded d r reply v = (note_bounded reply, summary_bounded v.summary)
  where
    note_bounded : (reply : Reply) → length (note_of d reply) ≤ 300
    note_bounded (refused e) = length-take-le 300 _
    note_bounded (response r) = omega arith
    note_bounded other = omega arith

    summary_bounded : (s : Option Text) → length (summary_text d s) ≤ 200
    summary_bounded none = omega arith
    summary_bounded (some []) = omega arith
    summary_bounded (some (c ∷ s)) = length-take-le 200 _
