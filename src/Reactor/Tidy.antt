-- ===== src/Reactor/Tidy.antt =====
-- The table of descriptors over the methods that write and close: every descriptor leads to a
-- connection that has it, and that has its ring and does not listen unless it is the listener's.
pub mod Payload
pub mod Handlers
pub mod Events
pub mod Shutdown
pub mod Closed
use mini_envoy.Base.{
  ℕ, zero, suc, ◌+◌, ◌≡◌, ◌⊎◌, inl, inr, refl, sym, ap, ◌∙◌, Bool, true, false, List, [], ◌∷◌,
}
use mini_envoy.Base.{
  Option, none, some, get_elem?, if◌then◌else◌, Bool-cases, arith, ◌==◌, ==_iff, ◌++◌,
}
use mathlib.Core.Path.{subst}
use mathlib.Core.Option.{some-injective}
use mini_envoy.Base.Int.{ℤ, pos, negsuc}
use mini_envoy.Buffer.Ring.{Ring}
use mini_envoy.Upstream.Endpoint.{Endpoint, add_active}
use mini_envoy.Upstream.Registry.{Ptr}
use mini_envoy.Protocol.Header.{Header}
use mini_envoy.Metrics.{Shard}
use mini_envoy.Reactor.Platform.{Platform, SysError}
use mini_envoy.Reactor.Conn.{Conn, Role, listening, get, put, del, change, is_connecting}
use mini_envoy.Reactor.Conn.Lookup.{
  get-del, get-del_same, get_elem-change_self, get_elem-change_other,
}
use mini_envoy.Reactor.Exec.{
  Reactor, Exec, pure, panic, gets, ask, modify, tell, continue, or_panic, ◌>>=◌, ◌>>◌, load,
  modify_conn, count, modify_ep, skip,
}
use mini_envoy.Reactor.Exec.Rules.{
  Post, Post-bind, Post-weaken, Keeps, Keeps-no_fuel, Keeps-skip, Keeps-if, Keeps-bind, Keeps-load,
  Keeps-gets, keeps_rules,
}
use mini_envoy.Reactor.Write.{
  stash_remainder, sent, flush_remain, written, write_parts, flush, reply_error, close_peer,
  release_ring, close_open, close_once, close_conn, is_ptr,
}

abbrev pub HasRing : Conn → Type 0
HasRing k = (r : Ring) × (k.ring ≡ some r)

-- What a descriptor leads to.
pub record IsEntry (conns : List Conn) (listen fd : ℕ) (p : Ptr) : Type 0 where
  pub conn : Conn
  pub at : get_elem? conns p ≡ some conn
  pub same : conn.fd ≡ fd
  pub ring : (fd ≡ listen) ⊎ HasRing conn
  pub only : conn.role ≡ listening → fd ≡ listen

abbrev pub IsTidy : {W : Type 0} → Reactor W → Type 0
IsTidy s = (fd : ℕ) (p : Ptr) → get s.tab fd ≡ some p → IsEntry s.conns s.listen fd p

-- Tidy, and no descriptor leads to that connection.
abbrev pub IsGone : {W : Type 0} → Ptr → Reactor W → Type 0
IsGone c s = IsTidy s × ((fd : ℕ) → get s.tab fd ≡ some c → ⊥)

-- A change that leaves the descriptor, does not take the ring and makes no listener.
pub record IsGentle (f : Conn → Conn) : Type 0 where
  pub fd : (k : Conn) → (f k).fd ≡ k.fd
  pub ring : (k : Conn) → HasRing k → HasRing (f k)
  pub role : (k : Conn) → (f k).role ≡ listening → k.role ≡ listening

change-IsEntry :
    (f : Conn → Conn) (c : Ptr) (conns : List Conn) (listen fd : ℕ) (p : Ptr)
    → ((k : Conn) → (f k).fd ≡ k.fd)
    → ((k : Conn) → (f k).role ≡ listening → k.role ≡ listening)
    → ((k : Conn) → p ≡ c → HasRing k → HasRing (f k))
    → IsEntry conns listen fd p
    → IsEntry (change f c conns) listen fd p
change-IsEntry f c conns listen fd p keep role ring e = elim (Bool-cases (p == c)) [
  | inl q ↦
      let same : p ≡ c = (==_iff p c).0 q in
      record {
        conn = f e.conn;
        at =
            subst (λ t. get_elem? (change f c conns) t ≡ some (f e.conn)) (sym same)
              (get_elem-change_self f c conns e.conn (ap (get_elem? conns) (sym same) ∙ e.at));
        same = keep e.conn ∙ e.same;
        ring = elim e.ring [ inl l ↦ inl l | inr r ↦ inr (ring e.conn same r) ];
        only = λ l. e.only (role e.conn l);
      }
  | inr q ↦ record {
    conn = e.conn;
    at = get_elem-change_other f c p conns (λ t. differ (sym t) q) ∙ e.at;
    same = e.same;
    ring = e.ring;
    only = e.only;
  }
]
  where
    differ : p ≡ c → (p == c) ≡ false → ⊥
    differ t q = ground arith

module _ {W : Type 0} where
  pub modify_conn-IsTidy :
      (c : Ptr) (f : Conn → Conn) → IsGentle f → Keeps IsTidy (modify_conn {W = W} c f)
  unfolding modify_conn modify
  modify_conn-IsTidy c f g = record {
    at = λ s t fd p h.
        change-IsEntry f c s.conns s.listen fd p g.fd g.role (λ k _. g.ring k) (t fd p h);
  }

  -- What does not touch the connections.
  pub tell-IsTidy : (f : W → W) → Keeps IsTidy (tell f)
  unfolding tell
  tell-IsTidy f = record { at = λ s t. t }

  pub ask-IsTidy : {A : Type 0} (f : W → W × A) → Keeps IsTidy (ask f)
  unfolding ask
  ask-IsTidy f = record { at = λ s t. t }

  pub count-IsTidy : (f : Shard → Shard) → Keeps IsTidy (count {W = W} f)
  unfolding count modify
  count-IsTidy f = record { at = λ s t. t }

  pub modify_ep-IsTidy :
      (o : Option Ptr) (f : Endpoint → Endpoint) → Keeps IsTidy (modify_ep {W = W} o f)
  unfolding modify_ep modify
  modify_ep-IsTidy none f = record { at = λ s t. t }
  modify_ep-IsTidy (some p) f = record { at = λ s t. t }

IsGentle-remain : (f : Conn → List ℕ) → IsGentle (λ k. record k { write_remain = f k })
IsGentle-remain f = record { fd = λ k. refl; ring = λ k h. h; role = λ k h. h }

IsGentle-last : (now : ℤ) → IsGentle (λ k. record k { last = now })
IsGentle-last now = record { fd = λ k. refl; ring = λ k h. h; role = λ k h. h }

pub IsGentle-peer : (o : Option Ptr) → IsGentle (λ k. record k { peer = o })
IsGentle-peer o = record { fd = λ k. refl; ring = λ k h. h; role = λ k h. h }

pub ruleset tidy_rules =
    (keeps_rules, modify_conn-IsTidy, tell-IsTidy, ask-IsTidy, count-IsTidy, modify_ep-IsTidy)

ruleset gentle = (IsGentle-remain, IsGentle-last, IsGentle-peer)

module _ {W : Type 0} (os : Platform W) where
  stash_remainder-IsTidy :
      (c : Ptr) (iov : List (List ℕ)) (n : ℤ) → Keeps IsTidy (stash_remainder os c iov n)
  unfolding stash_remainder
  stash_remainder-IsTidy c iov (negsuc n) = search tidy_rules
  stash_remainder-IsTidy c iov (pos n) = search (tidy_rules, gentle)

  module _ (close : Ptr → Exec W (Unit {0})) (kept : (c : Ptr) → Keeps IsTidy (close c)) where
    sent-IsTidy : (c : Ptr) (r : ℤ × SysError) → Keeps IsTidy (sent os close c r)
    unfolding sent
    sent-IsTidy c (n, err) = search (tidy_rules, gentle, kept)

    pub flush_remain-IsTidy : (c : Ptr) → Keeps IsTidy (flush_remain os close c)
    unfolding flush_remain
    flush_remain-IsTidy c = search (tidy_rules, sent-IsTidy)

    written-IsTidy :
        (c : Ptr) (iov : List (List ℕ)) (r : ℤ × SysError) → Keeps IsTidy (written os close c iov r)
    unfolding written
    written-IsTidy c iov (n, err) =
        search (tidy_rules, gentle, kept, stash_remainder-IsTidy) depth 10

    write_parts-IsTidy :
        (c : Ptr) (parts : List (List ℕ)) → Keeps IsTidy (write_parts os close c parts)
    unfolding write_parts
    write_parts-IsTidy c parts = search (tidy_rules, written-IsTidy)

    pub flush-IsTidy : (c : Ptr) (parts : List (List ℕ)) → Keeps IsTidy (flush os close c parts)
    unfolding flush
    flush-IsTidy c parts =
        search (tidy_rules, gentle, flush_remain-IsTidy, write_parts-IsTidy) depth 10

    pub reply_error-IsTidy :
        (c : Ptr) (req : Header) (code : ℕ) (msg : List ℕ)
        → Keeps IsTidy (reply_error os close c req code msg)
    unfolding reply_error
    reply_error-IsTidy c req code msg = search (tidy_rules, flush-IsTidy)

    close_peer-IsTidy : (c : Ptr) (o : Option Ptr) → Keeps IsTidy (close_peer os close c o)
    unfolding close_peer
    close_peer-IsTidy c none = Keeps-skip
    close_peer-IsTidy c (some p) = search (tidy_rules, gentle, kept, reply_error-IsTidy)

    -- Taken from the table, a connection gives its ring back.
    release_ring-IsGone :
        (c : Ptr) (r : Option Ring) (s : Reactor W)
        → IsGone c s
        → Post (λ a s'. IsTidy s') (release_ring os close c r s)
    unfolding release_ring modify_conn modify ◌>>=◌ skip
    release_ring-IsGone c none s (t, g) = t
    release_ring-IsGone c (some r) s (t, g) = λ fd p h.
        change-IsEntry (λ k. record k { ring = none }) c s.conns s.listen fd p (λ k. refl)
          (λ k l. l) (λ k e q. absurd (g fd (h ∙ ap some e))) (t fd p h)

    close_open-IsTidy :
        (c : Ptr) (k : Conn) (s : Reactor W)
        → IsTidy s
        → get_elem? s.conns c ≡ some k
        → Post (λ a s'. IsTidy s') (close_open os close c k s)
    unfolding close_open modify_conn modify tell ◌>>=◌
    close_open-IsTidy c k s t e =
        Post-bind (λ a s'. IsTidy s') (release_ring os close c k.ring) rest s'
          (Post-weaken (release_ring os close c k.ring s') (λ a u. (rest-IsTidy a).at u)
            (release_ring-IsGone c k.ring s' (tidy, gone)))
      where
        s' : Reactor W
        s' = record s {
          conns = change (λ j. record j { peer = none }) c s.conns;
          tab = del s.tab k.fd;
          os = os.close k.fd (os.poll_del k.fd s.os);
        }

        rest : Unit {0} → Exec W (Unit {0})
        rest _ = do
          if is_connecting k.role then skip else modify_ep k.ep (λ e. add_active e (negsuc 0))
          close_peer os close c k.peer

        rest-IsTidy : (a : Unit {0}) → Keeps IsTidy (rest a)
        rest-IsTidy a = search (tidy_rules, close_peer-IsTidy)

        tidy : IsTidy s'
        tidy fd p h =
            change-IsEntry (λ j. record j { peer = none }) c s.conns s.listen fd p (λ k. refl)
              (λ k l. l) (λ k _ q. q) (t fd p (get-del s.tab k.fd fd p h))

        none_some : none ≡ some c → ⊥
        none_some h = ground arith

        gone : (fd : ℕ) → get s'.tab fd ≡ some c → ⊥
        gone fd h =
            let found = t fd c (get-del s.tab k.fd fd c h) in
            let here : k.fd ≡ fd =
              ap (λ j. j.fd) (some-injective k found.conn (sym e ∙ found.at)) ∙ found.same in
            absurd (none_some (sym (get-del_same s.tab k.fd) ∙ ap (get (del s.tab k.fd)) here ∙ h))

    close_once-IsTidy : (c : Ptr) → Keeps IsTidy (close_once os close c)
    unfolding close_once load gets or_panic skip ◌>>=◌
    close_once-IsTidy c = record { at = λ s t. loaded s t (get_elem? s.conns c) refl }
      where
        loaded :
            (s : Reactor W)
            → IsTidy s
            → (o : Option Conn) → get_elem? s.conns c ≡ o
            → Post
                (λ a s'. IsTidy s')
                (continue (or_panic o s) (λ k. do
                  owner ← gets (λ s. get s.tab k.fd)
                  if is_ptr c owner then close_open os close c k else skip))
        loaded s t none e = tt
        loaded s t (some k) e = elim (Bool-cases (is_ptr c (get s.tab k.fd))) [
          | inl h ↦ rw h (close_open-IsTidy c k s t e)
          | inr h ↦ rw h t
        ]

  -- Closing keeps the table tidy, at any fuel.
  pub close_conn-IsTidy : (n : ℕ) (c : Ptr) → Keeps IsTidy (close_conn os n c)
  unfolding close_conn
  close_conn-IsTidy zero c = Keeps-no_fuel
  close_conn-IsTidy (suc n) c = close_once-IsTidy (close_conn os n) (close_conn-IsTidy n) c
