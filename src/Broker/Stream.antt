-- ===== src/Broker/Stream.antt =====
-- What is read of a broker's answer, and the request that it answers.
use mathlib.Core.Path.{subst}
use trustplane_auth_sdk_pyth.Base.{
  ℕ, ◌≤◌, ◌≡◌, ◌≢◌, refl, sym, ap, ◌∙◌, Bool, true, false, not, Option, some, List, [], ◌∷◌, ◌++◌,
  map, append_assoc, append-nil, Text, Bytes, All, length, length-append, ltb, if◌then◌else◌,
  Result, ok, err, ◌>>◌, raise_if, raise_if-eq-ok, >>=-eq-ok, arith,
}
use trustplane_auth_sdk_pyth.Text.{
  codes, text_eq_iff, is_empty, strip, has_char, has_char-eq-false, Lacks,
}
use trustplane_auth_sdk_pyth.Json.{Json, str, dict, Fields, get, has_field}
use trustplane_auth_sdk_pyth.Platform.{Platform}
use trustplane_auth_sdk_pyth.Broker.Request.{PreparedBrokerRequest}
use trustplane_auth_sdk_pyth.Broker.Answer.{BrokerResponse, response_from_dict}
use trustplane_auth_sdk_pyth.Broker.Client.{
  BrokerClient, Socket, max_broker_response, on_chunk, receive, is_id, answered, envelope, issue,
}

-- The bytes of chunks.
unfoldable pub joined : List Bytes → Bytes
joined [] = []
joined (chunk ∷ chunks) = chunk ++ joined chunks

length-joined_head :
    (raw chunk rest : Bytes) → length (raw ++ chunk) ≤ length (raw ++ (chunk ++ rest))
length-joined_head raw chunk rest =
    omega
      (arith, length-append raw chunk, length-append raw (chunk ++ rest), length-append chunk rest)

append-eq-nil : (s t : Bytes) → s ++ t ≡ [] → (s ≡ []) × (t ≡ [])
append-eq-nil [] t h = (refl, h)
append-eq-nil (c ∷ s) t h = absurd cc

nil-ne-append : (s : Bytes) (c : ℕ) → [] ≢ s ++ c ∷ []
nil-ne-append [] c h = cc
nil-ne-append (d ∷ s) c h = cc

-- A chunk that more follows is a part of the line.
cut_line :
    (chunk rest line : Bytes)
    → chunk ++ rest ≡ line ++ b'\n' ∷ []
    → rest ≢ []
    → (line' : Bytes) × (line ≡ chunk ++ line') × (rest ≡ line' ++ b'\n' ∷ [])
cut_line [] rest line h more = (line, refl, h)
cut_line (c ∷ chunk) rest [] h more = absurd (more (append-eq-nil chunk rest cc).1)
cut_line (c ∷ chunk) rest (l ∷ line) h more =
    let (line', before, after) = cut_line chunk rest line (cc) more in (line', cc, after)

Lacks-append : (c : ℕ) (s t : Bytes) → Lacks c (s ++ t) → Lacks c s × Lacks c t
Lacks-append c [] t h = (tt, h)
Lacks-append c (d ∷ s) t h = let (u, v) = Lacks-append c s t h.1 in ((h.0, u), v)

has_char-append_last : (c : ℕ) (s : Bytes) → has_char c (s ++ c ∷ []) ≡ true
unfolding has_char
has_char-append_last c [] = ground arith
has_char-append_last c (d ∷ s) = rw (has_char-append_last c s) (ground arith)

within :
    (raw chunk rest : Bytes)
    → length (raw ++ (chunk ++ rest)) ≤ max_broker_response
    → ltb max_broker_response (length (raw ++ chunk)) ≡ false
within raw chunk rest h = ground (arith, length-joined_head raw chunk rest)

-- A chunk that does not end the line is kept, and reading goes on.
receive-more :
    (raw chunk : Bytes) (chunks : List (Result Text Bytes))
    → chunk ≢ []
    → ltb max_broker_response (length (raw ++ chunk)) ≡ false
    → has_char b'\n' chunk ≡ false
    → receive raw (ok chunk ∷ chunks) ≡ receive (raw ++ chunk) chunks
unfolding receive on_chunk
receive-more raw [] chunks h small going = absurd (h refl)
receive-more raw (c ∷ chunk) chunks h small going = rw (small, going) refl

receive-last :
    (raw chunk : Bytes) (chunks : List (Result Text Bytes))
    → chunk ≢ []
    → ltb max_broker_response (length (raw ++ chunk)) ≡ false
    → has_char b'\n' chunk ≡ true
    → receive raw (ok chunk ∷ chunks) ≡ ok (raw ++ chunk)
unfolding receive on_chunk
receive-last raw [] chunks h small done = absurd (h refl)
receive-last raw (c ∷ chunk) chunks h small done = rw (small, done) refl

-- A line of an answer that is within the bound is read as it was sent, however it is cut into
-- chunks that are not empty, and whatever would follow it.
pub receive-joined :
    (raw line : Bytes) (chunks : List Bytes) (later : List (Result Text Bytes))
    → All (λ chunk. chunk ≢ []) chunks
    → joined chunks ≡ line ++ b'\n' ∷ []
    → Lacks b'\n' line
    → length (raw ++ joined chunks) ≤ max_broker_response
    → receive raw (map ok chunks ++ later) ≡ ok (raw ++ joined chunks)
unfolding joined
receive-joined raw line [] later nonempty cut no_end fits = absurd (nil-ne-append line b'\n' cut)
receive-joined raw line (chunk ∷ []) later nonempty cut no_end fits =
    let whole : chunk ≡ line ++ b'\n' ∷ [] = sym (append-nil chunk) ∙ cut in
    receive-last raw chunk (map ok [] ++ later) nonempty.0 (within raw chunk [] fits)
      (ap (has_char b'\n') whole ∙ has_char-append_last b'\n' line)
    ∙ ap (λ s. ok (raw ++ s)) (sym (append-nil chunk))
receive-joined raw line (chunk ∷ (next ∷ chunks)) later nonempty cut no_end fits =
    let (line', before, after) =
      cut_line chunk (next ++ joined chunks) line cut
        (λ e. nonempty.1.0 (append-eq-nil next (joined chunks) e).0) in
    let (lacks, lacks') = Lacks-append b'\n' chunk line' (subst (Lacks b'\n') before no_end) in
    let assoc : (raw ++ chunk) ++ (next ++ joined chunks)
        ≡ raw ++ (chunk ++ (next ++ joined chunks)) =
      append_assoc raw chunk (next ++ joined chunks) in
    receive-more raw chunk (ok next ∷ (map ok chunks ++ later)) nonempty.0
      (within raw chunk (next ++ joined chunks) fits) ((has_char-eq-false b'\n' chunk).1 lacks)
    ∙ receive-joined (raw ++ chunk) line' (next ∷ chunks) later nonempty.1 after lacks'
        (subst (λ s. length s ≤ max_broker_response) (sym assoc) fits)
    ∙ ap ok assoc

ok_bound :
    (raw all_of_it : Bytes)
    → ◌≡◌ {A = Result Text Bytes} (ok raw) (ok all_of_it)
    → length raw ≤ max_broker_response
    → length all_of_it ≤ max_broker_response
ok_bound raw all_of_it h fits =
    let same : raw ≡ all_of_it = cc in
    subst (λ (s : Bytes). length s ≤ max_broker_response) same fits

ltb_bound :
    (raw : Bytes) → ltb max_broker_response (length raw) ≡ false → length raw ≤ max_broker_response
ltb_bound raw t = ground arith

read_chunk :
    (raw : Bytes) (more : Result Text Bytes) (big end : Bool) (all_of_it : Bytes)
    → ltb max_broker_response (length raw) ≡ big
    → ((length raw ≤ max_broker_response)
        → more ≡ ok all_of_it
        → length all_of_it ≤ max_broker_response)
    → (if big then err (codes "broker_response_too_large") else if end then ok raw else more)
      ≡ ok all_of_it
    → length all_of_it ≤ max_broker_response
read_chunk raw more true end all_of_it t h k = cc
read_chunk raw more false true all_of_it t h k = ok_bound raw all_of_it k (ltb_bound raw t)
read_chunk raw more false false all_of_it t h k = h (ltb_bound raw t) k

-- What is read is at most as long as it may be.
receive-bound :
    (raw : Bytes) (chunks : List (Result Text Bytes)) (all_of_it : Bytes)
    → length raw ≤ max_broker_response
    → receive raw chunks ≡ ok all_of_it
    → length all_of_it ≤ max_broker_response
unfolding receive on_chunk
receive-bound raw [] all_of_it fits h = ok_bound raw all_of_it h fits
receive-bound raw (err raised ∷ chunks) all_of_it fits h = cc
receive-bound raw (ok [] ∷ chunks) all_of_it fits h = ok_bound raw all_of_it h fits
receive-bound raw (ok (c ∷ chunk) ∷ chunks) all_of_it fits h =
    read_chunk (raw ++ c ∷ chunk) (receive (raw ++ c ∷ chunk) chunks) _ (has_char b'\n' (c ∷ chunk))
      all_of_it refl (λ small k. receive-bound (raw ++ c ∷ chunk) chunks all_of_it small k) h

is_id-eq-true : (v : Json) (id : Text) → is_id v id ≡ true → v ≡ str id
is_id-eq-true (str s) id h = ap str ((text_eq_iff s id).0 h)
is_id-eq-true _ id h = cc

pub not-false : (b : Bool) → not b ≡ false → b ≡ true
not-false true h = refl
not-false false h = cc

-- A response that is returned was decoded from an object, and names the request.
answered-eq-ok :
    (request : Fields) (value : Option Json) (r : BrokerResponse)
    → answered request value ≡ ok r
    → (decoded : Fields) × (value ≡ some (dict decoded))
      × (r ≡ response_from_dict decoded)
      × (get (codes "request_id") request ≡ str r.request_id)
unfolding answered
answered-eq-ok request (some (dict decoded)) r h =
    let response = response_from_dict decoded in
    let present = raise_if (not (has_field (codes "request_id") request)) (codes "request_id") in
    let same =
      raise_if (not (is_id (get (codes "request_id") request) response.request_id))
        (codes "broker_response_request_id_mismatch") in
    let (done, t, h') = >>=-eq-ok (present >> same) (λ done. ok response) h in
    let (named, u, t') = >>=-eq-ok present (λ named. same) t in
    let made : response ≡ r = cc in
    let equal : is_id (get (codes "request_id") request) response.request_id ≡ true =
      not-false (is_id (get (codes "request_id") request) response.request_id)
        (raise_if-eq-ok _ _ t') in
    (decoded, refl, sym made, is_id-eq-true _ _ equal ∙ ap (λ x. str x.request_id) made)
answered-eq-ok request _ r h = cc

module _ ⦃p : Platform⦄ where
  -- What is done of an exchange that returns.
  pub record IsExchange (socket : Socket) (client : BrokerClient) (prepared : PreparedBrokerRequest)
      (r : BrokerResponse) : Type 0 where
    pub chunks : List (Result Text Bytes)
    pub response_raw : Bytes
    pub sent :
        socket client.socket_path client.timeout
          (p.json_dumps_ascii (envelope prepared.request) ++ b'\n' ∷ [])
        ≡ ok chunks
    pub read : receive [] chunks ≡ ok response_raw
    pub bound : length response_raw ≤ max_broker_response
    pub decoded : Fields
    pub is_decoded : p.json_loads_bytes response_raw ≡ some (dict decoded)
    pub is_response : r ≡ response_from_dict decoded
    pub same_request : get (codes "request_id") prepared.request ≡ str r.request_id

  -- A response that is returned was decoded from an answer of at most 1048576 bytes to the very
  -- message that was sent, and states the identifier of the request.
  pub issue-eq-ok :
      (socket : Socket) (client : BrokerClient) (prepared : PreparedBrokerRequest)
      (r : BrokerResponse)
      → issue socket client prepared ≡ ok r
      → IsExchange socket client prepared r
  unfolding issue
  issue-eq-ok socket client prepared r h =
      let raw = p.json_dumps_ascii (envelope prepared.request) ++ b'\n' ∷ [] in
      let (named, t, h0) = >>=-eq-ok (raise_if (is_empty (strip client.socket_path)) _) _ h in
      let (chunks, sent, h1) = >>=-eq-ok (socket client.socket_path client.timeout raw) _ h0 in
      let (response_raw, read, h2) = >>=-eq-ok (receive [] chunks) _ h1 in
      let (decoded, is_decoded, is_response, same_request) =
        answered-eq-ok prepared.request (p.json_loads_bytes response_raw) r h2 in
      record {
        chunks = chunks;
        response_raw = response_raw;
        sent = sent;
        read = read;
        bound = receive-bound [] chunks response_raw (omega arith) read;
        decoded = decoded;
        is_decoded = is_decoded;
        is_response = is_response;
        same_request = same_request;
      }
