-- ===== src/Libuv/Loop/Sending.antt =====
-- libuv/relay.cpp: sends and the ownership of the buffers.
use urn.Prelude.{
  ℕ, suc, ◌/◌, ◌<◌, ◌≤◌, ◌≡◌, ◌≢◌, refl, true, false, List, [], ◌∷◌, ◌++◌, ok, arith, ◌==◌, count,
}
use urn.IntrusiveStack.{Ptr, nullptr, push}
use urn.IntrusiveStack.Laws.{push-Holds}
use urn.Relay.Packet.{Packet}
use urn.Libuv.Buffers.{Send, Thread, IoBuf, Session, data_size, chunks_size, release}
use urn.Libuv.Thread.{UdpSend, start_send, fill_chunk}
use urn.Libuv.Loop.Owned.{IsOwned, AllIntact, sends_of, sends_of-append, has-count}

-- The end of a read whose buffer has no send: the buffer goes to the pool.
pub release-IsOwned :
    (b : Ptr) (free : List Ptr) (t : Thread)
    → IsOwned b free t
    → b ≢ nullptr
    → sends_of b t.sending ≡ 0
    → IsOwned nullptr (b ∷ free) (release b t)
unfolding release push
release-IsOwned b free t o nn unsent =
    let self : (b == b) ≡ true = ground arith in
    let out : count b free ≡ 0 = ground (arith, o.place b, self) in
    record {
      stack = (push-Holds t.hooks t.pool free b nn (has-count b free out) o.stack).0;
      place = λ p. ground (arith, o.place p, o.under_way nn);
      dead = o.dead;
      refs = o.refs;
      few = o.few;
      under_way = λ h. absurd (h refl);
      some_new = o.some_new;
    }

-- The end of a read whose buffer has sends under way: they own the buffer.
pub keep-IsOwned :
    (b : Ptr) (free : List Ptr) (t : Thread)
    → IsOwned b free t
    → 0 < sends_of b t.sending
    → IsOwned nullptr free t
keep-IsOwned b free t o busy = record {
  stack = o.stack;
  place = λ p. ground (arith, o.place p, o.dead p);
  dead = o.dead;
  refs = o.refs;
  few = o.few;
  under_way = λ h. absurd (h refl);
  some_new = o.some_new;
}

AllIntact-fill_chunk :
    (b limit limit' : ℕ) (session : Session) (packet : Packet) (t : Thread) (xs : List Send)
    → limit ≤ limit'
    → AllIntact b limit t.bufs xs
    → AllIntact b limit' (fill_chunk b session packet t).bufs xs
unfolding fill_chunk
AllIntact-fill_chunk b limit limit' session packet t [] le h = tt
AllIntact-fill_chunk b limit limit' session packet t (s ∷ xs) le (i, is) = (
  record {
    chunk = i.chunk;
    found = ground (arith, i.found, i.counted);
    len = i.len;
    nonnull = i.nonnull;
    home = i.home;
    counted = λ e. ground (arith, i.counted e);
    below = λ e. omega (arith, i.below e);
  },
  AllIntact-fill_chunk b limit limit' session packet t xs le is,
)

pub AllIntact-append :
    (b limit : ℕ) (bufs : Ptr → IoBuf) (xs ys : List Send)
    → AllIntact b limit bufs xs
    → AllIntact b limit bufs ys
    → AllIntact b limit bufs (xs ++ ys)
AllIntact-append b limit bufs [] ys h k = k
AllIntact-append b limit bufs (s ∷ xs) ys (i, is) k = (i, AllIntact-append b limit bufs xs ys is k)

-- What a call of `start_send` for a datagram of the read that is under way does.
pub record Started (s : Send) (b limit : ℕ) (free : List Ptr) (t t' : Thread) : Type 0 where
  pub owned : IsOwned b free t'
  pub intact : AllIntact b limit t'.bufs t'.sending
  pub sending : t'.sending ≡ t.sending ++ (s ∷ [])
  pub memory : t'.memory ≡ t.memory
  pub out : t'.sent ≡ t.sent
  pub last : t'.last_alloc ≡ t.last_alloc
  pub one_more : (t'.bufs b).ref_count ≡ suc (t.bufs b).ref_count

pub start_send-Started :
    (udp_send : UdpSend) (session : Session) (p : Packet) (b limit limit' : ℕ) (free : List Ptr)
    (t : Thread)
    → ((u : Thread) (s : Send) → udp_send u s ≡ true)
    → IsOwned b free t
    → AllIntact b limit t.bufs t.sending
    → b ≢ nullptr
    → t.last_alloc ≡ b
    → (t.bufs b).ref_count < chunks_size
    → p.address / data_size ≡ b
    → p.address < limit'
    → limit ≤ limit'
    → (t' : Thread) × (start_send udp_send session p t ≡ ok t')
      × Started
          (record {
            buf = b;
            slot = (t.bufs b).ref_count;
            base = p.address;
            len = p.length;
            to = session.client_endpoint;
          })
          b
          limit'
          free
          t
          t'
unfolding start_send
start_send-Started udp_send session p b limit limit' free t accepts o i nn last room home below le =
    let live : (t.last_alloc == nullptr) ≡ false = ground arith in
    let few : ((t.bufs b).ref_count == chunks_size) ≡ false = ground arith in
    let s : Send = record {
      buf = b;
      slot = (t.bufs b).ref_count;
      base = p.address;
      len = p.length;
      to = session.client_endpoint;
    } in
    let t' = record (fill_chunk b session p t) { sending = t.sending ++ (s ∷ []) } in
    let more = λ (q : Ptr). sends_of-append q t.sending (s ∷ []) in
    (
      t',
      ground (arith, accepts (fill_chunk b session p t) s),
      record {
        owned = record {
          stack = unfold fill_chunk in o.stack;
          place = λ q. unfold fill_chunk in ground (arith, o.place q, more q);
          dead = λ q. unfold fill_chunk in ground (arith, o.dead q, more q, o.under_way nn);
          refs = λ q. unfold fill_chunk in ground (arith, o.refs q, more q);
          few = λ q. unfold fill_chunk in ground (arith, o.few q);
          under_way = unfold fill_chunk in o.under_way;
          some_new = unfold fill_chunk in o.some_new;
        };
        intact =
            AllIntact-append b limit' t'.bufs t.sending (s ∷ [])
              (AllIntact-fill_chunk b limit limit' session p t t.sending le i)
              (
                record {
                  chunk = record { packet = p; session = session };
                  found = unfold fill_chunk in ground arith;
                  len = refl;
                  nonnull = nn;
                  home = home;
                  counted = λ _. unfold fill_chunk in ground arith;
                  below = λ _. below;
                },
                tt,
              );
        sending = refl;
        memory = unfold fill_chunk in refl;
        out = unfold fill_chunk in refl;
        last = unfold fill_chunk in refl;
        one_more = unfold fill_chunk in ground arith;
      },
    )

-- Between two reads no buffer is current.
pub AllIntact-idle :
    (b limit : ℕ) (bufs : Ptr → IoBuf) (xs : List Send)
    → AllIntact b limit bufs xs
    → AllIntact nullptr 0 bufs xs
AllIntact-idle b limit bufs [] h = tt
AllIntact-idle b limit bufs (s ∷ xs) (i, is) = (
  record {
    chunk = i.chunk;
    found = i.found;
    len = i.len;
    nonnull = i.nonnull;
    home = i.home;
    counted = λ e. absurd (i.nonnull e);
    below = λ e. absurd (i.nonnull e);
  },
  AllIntact-idle b limit bufs xs is,
)

-- A read begins with a buffer that has no send.
pub AllIntact-begin :
    (b limit : ℕ) (bufs bufs' : Ptr → IoBuf) (xs : List Send)
    → sends_of b xs ≡ 0
    → ((p : Ptr) → p ≢ b → bufs' p ≡ bufs p)
    → AllIntact nullptr 0 bufs xs
    → AllIntact b limit bufs' xs
AllIntact-begin b limit bufs bufs' [] none_yet same h = tt
AllIntact-begin b limit bufs bufs' (s ∷ xs) none_yet same (i, is) =
    let other : s.buf ≢ b = λ e. absurd (ground arith) in
    let kept : bufs' s.buf ≡ bufs s.buf = same s.buf other in
    (
      record {
        chunk = i.chunk;
        found = rw kept i.found;
        len = i.len;
        nonnull = i.nonnull;
        home = i.home;
        counted = λ e. absurd (other e);
        below = λ e. absurd (other e);
      },
      AllIntact-begin b limit bufs bufs' xs (ground arith) same is,
    )
