-- ===== src/Nanopb/Decode/Runs/Substreams.antt =====
-- Substreams that are opened, used and closed.
use answrapp.Common.{
  Bool, ℕ, ◌+◌, ◌-◌, ◌^◌, ◌≤◌, ◌<◌, ◌≡◌, refl, inl, inr, Bool-cases, true, false, Option, arith,
  ltb, ◌==◌,
}
use answrapp.Nanopb.Types.{Error, IsU32, parent_too_short}
use answrapp.Nanopb.Input.{Source, buffer, custom, InStream, Result, ok, skip, set_error}
use answrapp.Nanopb.Input
use answrapp.Nanopb.Input.Safety.{IsValid, Serves, Post, skip-IsSafe}
use answrapp.Nanopb.Input.Takes.{Moves, Room, TakesPost, skip-Takes}
use answrapp.Nanopb.Varint.{decode_varint32}
use answrapp.Nanopb.Varint.Safety.{decode_varint32-Ensures}
use answrapp.Nanopb.Varint.Takes.{decode_varint32-Takes}
use answrapp.Nanopb.Substream.{make_string_substream, close_string_substream, split_off, skipped_to}
use answrapp.Nanopb.Struct.{Store}
use answrapp.Nanopb.Decode.{
  Machine, Outcome, done, failed, Step, and_then, ◌>>=◌, ◌>>◌, give, with_store, enter,
  open_substream, close_substream,
}
use answrapp.Nanopb.Decode
use answrapp.Nanopb.Decode.Runs.{
  Goes, Goes-self, Goes-trans, Goes-mono, raise-Goes, RunPost, Anything, and_then-Runs,
}

-- The streams behind `pb_make_string_substream` on the stream `s`.
pub record Opened (s parent substream : InStream) : Type 0 where
  pub takes : parent.bytes_left + substream.bytes_left + 1 ≤ s.bytes_left
  pub room : Room s.source s.bytes_left parent.source (parent.bytes_left + substream.bytes_left)
  pub same : substream.source ≡ parent.source
  pub serves : Serves parent.source (parent.bytes_left + substream.bytes_left)
  pub fits : s.bytes_left < 2 ^ 64

Serves-less : (src : Source) (a b : ℕ) → Serves src (a + b) → Serves src a
Serves-less (buffer mem) a b h = (omega (arith, h.0), h.1)
Serves-less (custom answer past) a b h = h

Serves-tail : (src : Source) (a b : ℕ) → Serves src (a + b) → Serves src b
Serves-tail (buffer mem) a b h = (omega (arith, h.0), h.1)
Serves-tail (custom answer past) a b h = h

-- What is left of the array behind a substream is enough for its parent.
Serves-behind :
    (p u : Source) (a b c : ℕ) → Serves p (a + b) → Room p b u c → Serves u c → Serves u a
Serves-behind (buffer l) (buffer m) a b c h r v = (omega (arith, h.0), v.1)
Serves-behind (buffer l) (custom f past) a b c h r v = v
Serves-behind (custom f past) (buffer m) a b c h r v = absurd r
Serves-behind (custom f past) (custom g z) a b c h r v = v

Room-behind : (s p u : Source) (l a b c : ℕ) → Room s l p (a + b) → Room p b u c → Room s l u a
Room-behind (buffer k) (buffer m) (buffer n) l a b c h r = omega arith
Room-behind (buffer k) (buffer m) (custom f past) l a b c h r = tt
Room-behind (buffer k) (custom f past) (buffer n) l a b c h r = absurd r
Room-behind (buffer k) (custom f past) (custom g z) l a b c h r = tt
Room-behind (custom f past) (buffer m) u l a b c h r = absurd h
Room-behind (custom f past) (custom g z) (buffer n) l a b c h r = absurd r
Room-behind (custom f past) (custom g z) (custom o y) l a b c h r = tt

Room-less : (s p : Source) (l a b : ℕ) → Room s l p (a + b) → Room s l p a
Room-less (buffer k) (buffer m) l a b h = omega arith
Room-less (buffer k) (custom f past) l a b h = tt
Room-less (custom f past) (buffer m) l a b h = absurd h
Room-less (custom f past) (custom g z) l a b h = tt

Room-tail : (s p : Source) (l a b : ℕ) → Room s l p (a + b) → Room s l p b
Room-tail (buffer k) (buffer m) l a b h = omega arith
Room-tail (buffer k) (custom f past) l a b h = tt
Room-tail (custom f past) (buffer m) l a b h = absurd h
Room-tail (custom f past) (custom g z) l a b h = tt

module _ {s parent substream : InStream} (o : Opened s parent substream) where
  pub parent-Goes : Goes 1 s parent
  parent-Goes = record {
    valid = record {
      serves = Serves-less parent.source parent.bytes_left substream.bytes_left o.serves;
      fits = omega (arith, o.takes, o.fits);
    };
    moves = record {
      takes = omega (arith, o.takes);
      room =
          Room-less s.source parent.source s.bytes_left parent.bytes_left substream.bytes_left
            o.room;
    };
  }

  pub substream-IsValid : IsValid substream
  substream-IsValid = record {
    serves = rw o.same (Serves-tail parent.source parent.bytes_left substream.bytes_left o.serves);
    fits = omega (arith, o.takes, o.fits);
  }

  -- The message of the parent does not matter.
  pub alike-Opened :
      (p : InStream)
      → p.source ≡ parent.source
      → p.bytes_left ≡ parent.bytes_left
      → Opened s p substream
  alike-Opened p es el = record {
    takes = rw el o.takes;
    room = rw (es, el) o.room;
    same = rw es o.same;
    serves = rw (es, el) o.serves;
    fits = o.fits;
  }

  -- The parent behind what was read from the substream.
  behind-Goes :
      (u : InStream) (e : Option Error)
      → Goes 0 substream u
      → Goes 1 s (record parent { source = u.source; errmsg = e })
  behind-Goes u e g =
      let room : Room parent.source substream.bytes_left u.source u.bytes_left =
        rw (← o.same) g.moves.room in
      record {
        valid = record {
          serves =
              Serves-behind parent.source u.source parent.bytes_left substream.bytes_left
                u.bytes_left o.serves room g.valid.serves;
          fits = omega (arith, o.takes, o.fits);
        };
        moves = record {
          takes = omega (arith, o.takes);
          room =
              Room-behind s.source parent.source u.source s.bytes_left parent.bytes_left
                substream.bytes_left u.bytes_left o.room room;
        };
      }

  skipped-Runs :
      (u : InStream) (store : Store) (r : Result (Unit {0}))
      → Goes 0 substream u
      → Post (λ _. Unit) u r
      → TakesPost 0 u r
      → RunPost 1 Anything s (with_store store (skipped_to r parent))
  skipped-Runs u store (ok x w) g p h =
      (tt, behind-Goes w w.errmsg (Goes-trans g (record { valid = p.1.valid; moves = h })))
  skipped-Runs u store (Input.failed w) g p h = Goes-mono 0 (omega arith) parent-Goes
  skipped-Runs u store Input.fault g p h = absurd p
  skipped-Runs u store Input.stuck g p h = absurd p

  -- `pb_close_string_substream` behind any use of the substream.
  pub close_substream-Runs :
      (u : Machine) → Goes 0 substream u.stream → RunPost 1 Anything s (close_substream parent u)
  unfolding close_substream close_string_substream
  close_substream-Runs u g = elim (Bool-cases (u.stream.bytes_left == 0)) [
    | inl e ↦ rw e (tt, behind-Goes u.stream u.stream.errmsg g)
    | inr e ↦ rw e (
        skipped-Runs u.stream u.store (skip u.stream.bytes_left u.stream) g
          (skip-IsSafe u.stream.bytes_left u.stream g.valid)
          ((skip-Takes u.stream.bytes_left).takes u.stream))
  ]

Opened-split :
    (s t : InStream) (size : ℕ)
    → s.bytes_left < 2 ^ 64
    → IsValid t
    → Moves 1 s t
    → size ≤ t.bytes_left
    → Opened s (record t { bytes_left = t.bytes_left - size }) (record t { bytes_left = size })
Opened-split s t size fits v m h =
    let sum : t.bytes_left - size + size ≡ t.bytes_left = omega arith in
    record {
      takes = omega (arith, m.takes);
      room = rw sum m.room;
      same = refl;
      serves = rw sum v.serves;
      fits = fits;
    }

module _ {ℓ} {B : Type ℓ} (k : ℕ) (Q : B → Type 0) (body : InStream → Step B) where
  sized-Runs :
      (s : InStream) (store : Store) (r : Result ℕ)
      → s.bytes_left < 2 ^ 64
      → Post IsU32 s r
      → TakesPost 1 s r
      → ((parent substream : InStream)
          → Opened s parent substream
          → RunPost k Q s (body parent (record { stream = substream; store = store })))
      → RunPost k Q s (
          Decode.and_then
            (with_store store (Input.and_then r split_off))
            (λ substream. enter substream >>= body))
  sized-Runs s store (ok size t) fits p h used = elim (Bool-cases (ltb t.bytes_left size)) [
    | inl short ↦ rw short (
        Goes-mono 0 (omega arith) (
          Goes-trans (record { valid = p.1.valid; moves = h })
            (raise-Goes parent_too_short p.1.valid)))
    | inr long ↦ rw long (
        used (record t { bytes_left = t.bytes_left - size }) (record t { bytes_left = size })
          (Opened-split s t size fits p.1.valid h (ground arith)))
  ]
  sized-Runs s store (Input.failed t) fits p h used = record { valid = p.valid; moves = h }
  sized-Runs s store Input.fault fits p h used = absurd p
  sized-Runs s store Input.stuck fits p h used = absurd p

  -- What is done with a substream.
  pub open_substream-Runs :
      (s : Machine)
      → IsValid s.stream
      → ((parent substream : InStream)
          → Opened s.stream parent substream
          → RunPost k Q s.stream (body parent (record { stream = substream; store = s.store })))
      → RunPost k Q s.stream ((open_substream >>= body) s)
  unfolding open_substream make_string_substream
  open_substream-Runs s v used = regroup (Input.and_then (decode_varint32 s.stream) split_off) (
      sized-Runs s.stream s.store (decode_varint32 s.stream) v.fits
        (decode_varint32-Ensures s.stream v) (decode_varint32-Takes.takes s.stream) used)
    where
      regroup :
          (r : Result InStream)
          → RunPost k Q s.stream
              (Decode.and_then (with_store s.store r) (λ substream. enter substream >>= body))
          → RunPost k Q s.stream
              (Decode.and_then (Decode.and_then (with_store s.store r) enter) body)
      regroup (ok a t) h = h
      regroup (Input.failed t) h = h
      regroup Input.fault h = h
      regroup Input.stuck h = h

-- A step in a substream whose status is kept, and what follows it.
pub attempted-Runs {ℓ κ} :
    {A : Type ℓ} {B : Type κ} (k : ℕ) (Q : B → Type 0) (s : InStream) {substream : InStream}
    (r : Outcome A) (f : Bool → Step B)
    → RunPost 0 Anything substream (Decode.status_of r)
    → ((status : Bool) (u : Machine) → Goes 0 substream u.stream → RunPost k Q s (f status u))
    → RunPost k Q s (Decode.and_then (Decode.status_of r) f)
attempted-Runs k Q s (done a u) f h g = g true u h.1
attempted-Runs k Q s (failed u) f h g = g false u h.1
attempted-Runs k Q s Decode.outside f h g = absurd h
attempted-Runs k Q s Decode.fault f h g = tt
attempted-Runs k Q s Decode.stuck f h g = absurd h

-- `return status` behind the closed substream.
pub close_and_give-Runs :
    {s parent substream : InStream} (o : Opened s parent substream) (status : Bool) (u : Machine)
    → Goes 0 substream u.stream
    → RunPost 1 Anything s ((close_substream parent >> give status) u)
close_and_give-Runs {s} {parent} o status u g =
    and_then-Runs 1 0 Anything Anything s (close_substream parent u) (λ _. give status)
      (close_substream-Runs o u g) (λ a w _ go. give_lem status w go.valid)
  where
    give_lem :
        (status : Bool) (w : Machine)
        → IsValid w.stream
        → RunPost 0 Anything w.stream (give status w)
    give_lem true w v = (tt, Goes-self v)
    give_lem false w v = Goes-self v
