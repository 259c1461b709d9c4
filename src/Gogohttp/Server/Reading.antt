-- ===== src/Gogohttp/Server/Reading.antt =====
-- The two reading loops of `serveOne` in modules/gogohttp/server.go: what they keep, and that they end.
use web_spa.Base.{
  ℕ, ◌-◌, ◌*◌, ◌≤◌, ◌<◌, ◌≡◌, refl, sym, ap, ◌∙◌, ◌⊎◌, inl, inr, true, false, List, [], ◌∷◌, ◌++◌,
  some, Bytes, leb, length, take, drop, length-append, length-take_of_le, length-drop,
  take-append-drop, append_assoc, arith, Bool-cases,
}
use web_spa.Gogohttp.Types.{ParseError}
use web_spa.Gogohttp.Conn.{Conn, Arrival, read, read_next}
use web_spa.Gogohttp.Response.{
  err_response_for, err_resp_400, err_resp_413, err_resp_414, err_resp_431,
}
use web_spa.Gogohttp.Server.{
  ConnState, Progress, got, hang_up, spent, respond, grow_for_head, grow_for_body, pending,
}

-- The bytes that arrive, without their division into segments.
abbrev pub stream_of : List Arrival → Bytes
stream_of [] = []
stream_of (a ∷ later) = a.bytes ++ stream_of later

-- What a read into some room does: no byte is lost, and it makes progress or reports the end.
pub record IsRead (room : ℕ) (c : Conn) (o : Arrival × Conn) : Type 0 where
  pub whole : o.0.bytes ++ stream_of o.1.incoming ≡ stream_of c.incoming
  pub within : length o.0.bytes ≤ room
  pub unsent : o.1.sent ≡ c.sent
  pub less : ((o.0.failed ≡ true) × (o.0.bytes ≡ [])) ⊎ (pending o.1.incoming < pending c.incoming)
  pub least : pending o.1.incoming ≤ pending c.incoming

read_next-IsRead :
    (room : ℕ) (c : Conn) (arrivals : List Arrival)
    → 0 < room
    → c.incoming ≡ arrivals
    → IsRead room c (read_next room c arrivals)
read_next-IsRead room c [] h e = record {
  whole = refl;
  within = omega arith;
  unsent = refl;
  less = inl (refl, refl);
  least = omega arith;
}
read_next-IsRead room c (a ∷ later) h e = elim (Bool-cases (leb (length a.bytes) room)) [
  | inl fits ↦ rw fits (record {
    whole = sym (ap stream_of e);
    within = ground arith;
    unsent = refl;
    less = inr (omega (arith, ap pending e));
    least = omega (arith, ap pending e);
  })
  | inr long ↦ rw long (record {
    whole =
        sym (append_assoc (take room a.bytes) (drop room a.bytes) (stream_of later))
        ∙ (ap (λ (b : Bytes). b ++ stream_of later) (take-append-drop room a.bytes)
            ∙ sym (ap stream_of e));
    within = ground (arith, length-take_of_le room a.bytes);
    unsent = refl;
    less = inr (ground (arith, length-drop room a.bytes, ap pending e));
    least = ground (arith, length-drop room a.bytes, ap pending e);
  })
]

pub read-IsRead : (room : ℕ) (c : Conn) → 0 < room → IsRead room c (read room c)
unfolding read
read-IsRead room c h = read_next-IsRead room c c.incoming h refl

-- The bytes of the buffer fit in, and its size has a bound.
pub record IsWithin (limit : ℕ) (st : ConnState) : Type 0 where
  pub inside : length st.buf ≤ st.cap
  pub positive : 0 < st.cap
  pub bounded : st.cap ≤ limit

-- From one state to another the server has only read: no byte of the stream is lost, and nothing sent.
pub record HasRead (limit : ℕ) (st : ConnState) (c : Conn) (st' : ConnState) (c' : Conn)
    : Type 0 where
  pub whole : st'.buf ++ stream_of c'.incoming ≡ st.buf ++ stream_of c.incoming
  pub unsent : c'.sent ≡ c.sent
  pub within : IsWithin limit st'
  pub least : pending c'.incoming ≤ pending c.incoming

pub HasRead-trans :
    {limit : ℕ} {st st' st'' : ConnState} {c c' c'' : Conn}
    → HasRead limit st c st' c'
    → HasRead limit st' c' st'' c''
    → HasRead limit st c st'' c''
HasRead-trans h k = record {
  whole = k.whole ∙ h.whole;
  unsent = k.unsent ∙ h.unsent;
  within = k.within;
  least = omega (arith, h.least, k.least);
}

-- The responses that `serveOne` gives before a handler runs.
pub data Refusal : Type 0 where
  bad_request too_large uri_too_long headers_too_large : Refusal

abbrev pub refusal : Refusal → Bytes
refusal bad_request = err_resp_400
refusal too_large = err_resp_413
refusal uri_too_long = err_resp_414
refusal headers_too_large = err_resp_431

-- The connection is given up with nothing sent, or with one refusal as the last thing sent.
abbrev pub IsHungUp : Conn → Conn → Type 0
IsHungUp c c' =
    (c'.sent ≡ c.sent)
    ⊎ ((s : Refusal) × (x : Conn) × (x.sent ≡ c.sent) × (c' ≡ respond (refusal s) x))

pub refused : (s : Refusal) (c x : Conn) → x.sent ≡ c.sent → IsHungUp c (respond (refusal s) x)
refused s c x e = inr (s, x, e, refl)

pub err_response_for-Refusal : (e : ParseError) → (s : Refusal) × (err_response_for e ≡ refusal s)
unfolding err_response_for
err_response_for-Refusal ParseError.malformed = (bad_request, refl)
err_response_for-Refusal ParseError.too_many_headers = (headers_too_large, refl)
err_response_for-Refusal ParseError.line_too_long = (uri_too_long, refl)
err_response_for-Refusal ParseError.headers_too_long = (headers_too_large, refl)
err_response_for-Refusal ParseError.smuggling = (bad_request, refl)
err_response_for-Refusal ParseError.bad_method = (bad_request, refl)
err_response_for-Refusal ParseError.bad_version = (bad_request, refl)
err_response_for-Refusal ParseError.obs_fold = (bad_request, refl)
err_response_for-Refusal ParseError.bad_content_len = (bad_request, refl)
err_response_for-Refusal ParseError.unsupported_te = (bad_request, refl)

-- A loop that reads has got a value with a property, or has hung up; its fuel is not spent.
abbrev pub Reads :
    {A : Type 0} → (A → ConnState → Type 0) → ℕ → ConnState → Conn → Progress A → Type 0
Reads P limit st c (got a st' c') = P a st' × HasRead limit st c st' c'
Reads P limit st c (hang_up c') = IsHungUp c c'
Reads P limit st c spent = ⊥

IsHungUp-trans : (c c' c'' : Conn) → c'.sent ≡ c.sent → IsHungUp c' c'' → IsHungUp c c''
IsHungUp-trans c c' c'' e (inl h) = inl (h ∙ e)
IsHungUp-trans c c' c'' e (inr (s, x, h, k)) = inr (s, x, h ∙ e, k)

pub Reads-trans :
    {A : Type 0} (P : A → ConnState → Type 0) (limit : ℕ) (st st' : ConnState) (c c' : Conn)
    (o : Progress A)
    → HasRead limit st c st' c'
    → Reads P limit st' c' o
    → Reads P limit st c o
Reads-trans P limit st st' c c' (got a st'' c'') h (p, k) = (p, HasRead-trans h k)
Reads-trans P limit st st' c c' (hang_up c'') h k = IsHungUp-trans c c' c'' h.unsent k
Reads-trans P limit st st' c c' spent h k = k

-- What an arrival adds to the buffer.
pub arrived :
    (limit : ℕ) (st : ConnState) (c : Conn) (o : Arrival × Conn)
    → IsWithin limit st
    → IsRead (st.cap - length st.buf) c o
    → HasRead limit st c (record st { buf = st.buf ++ o.0.bytes }) o.1
arrived limit st c o v r = record {
  whole = append_assoc st.buf o.0.bytes _ ∙ ap (λ (b : Bytes). st.buf ++ b) r.whole;
  unsent = r.unsent;
  within = record {
    inside = omega (arith, length-append st.buf o.0.bytes, v.inside, r.within);
    positive = v.positive;
    bounded = v.bounded;
  };
  least = r.least;
}

-- A buffer with room, which holds what it held.
pub record HasRoom (limit : ℕ) (st st' : ConnState) : Type 0 where
  pub same : st'.buf ≡ st.buf
  pub room : length st'.buf < st'.cap
  pub within : IsWithin limit st'

pub grow_for_head-HasRoom :
    (limit max : ℕ) (st st' : ConnState)
    → 2 * max ≤ limit
    → IsWithin limit st
    → grow_for_head max st ≡ some st'
    → HasRoom limit st st'
unfolding grow_for_head
grow_for_head-HasRoom limit max st st' le v h = ground (arith, v.inside, v.positive, v.bounded)

pub grow_for_body-HasRoom :
    (limit max needed : ℕ) (st st' : ConnState)
    → 2 * max ≤ limit
    → IsWithin limit st
    → length st.buf < needed
    → grow_for_body max needed st ≡ some st'
    → HasRoom limit st st'
unfolding grow_for_body
grow_for_body-HasRoom limit max needed st st' le v short h =
    ground (arith, v.inside, v.positive, v.bounded)

pub HasRoom-HasRead :
    {limit : ℕ} {st st' : ConnState} (c : Conn) → HasRoom limit st st' → HasRead limit st c st' c
HasRoom-HasRead c r = record {
  whole = ap (λ (b : Bytes). b ++ stream_of c.incoming) r.same;
  unsent = refl;
  within = r.within;
  least = omega arith;
}

-- A read that reports no error has made progress.
pub IsRead-less :
    {room : ℕ} {c : Conn} {o : Arrival × Conn}
    → IsRead room c o
    → o.0.failed ≡ false
    → pending o.1.incoming < pending c.incoming
IsRead-less r h = elim r.less [ inl bad ↦ absurd (ground arith) | inr less ↦ less ]
