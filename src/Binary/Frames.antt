-- ===== src/Binary/Frames.antt =====
-- The replies of src/YAMBinaryProtocolProcessor.cpp are whole frames.
use yamemcached.Base.{
  ℕ, ◌≡◌, refl, sym, ap, subst, ◌∙◌, Bool, true, false, List, [], ◌++◌, append-nil, append_assoc,
  length, Outcome, ok, abort, fault, spin, ◌>>=◌, if◌then◌else◌,
}
use yamemcached.Binary.Header.{BinaryHeader, header_bytes}
use yamemcached.Binary.Commands.{Exchange, send}

-- Headers, each with as many bytes behind it as its length says.
pub data Frames : List ℕ → Type 0 where
  no_frames : Frames []
  frame :
      (h : BinaryHeader) (body rest : List ℕ)
      → length body ≡ h.body_len
      → Frames rest
      → Frames (header_bytes h ++ (body ++ rest))

module _ {S : Type 0} where
  -- The output grew by frames.
  pub record Adds (x x' : Exchange S) : Type 0 where
    pub frames : List ℕ
    pub out : x'.out ≡ x.out ++ frames
    pub whole : Frames frames

  -- If the run gives an exchange, its output grew by frames.
  pub data Gives (x : Exchange S) : Outcome (Exchange S) → Type 0 where
    gave : (x' : Exchange S) → Adds x x' → Gives x (ok x')
    aborted : Gives x abort
    faulted : Gives x fault
    spun : Gives x spin

  pub Gives-if :
      (x : Exchange S) (c : Bool) {m n : Outcome (Exchange S)}
      → Gives x m
      → Gives x n
      → Gives x (if c then m else n)
  Gives-if x true p q = p
  Gives-if x false p q = q

  pub Gives-bind :
      {A : Type 0} (x : Exchange S) (m : Outcome A) (f : A → Outcome (Exchange S))
      → ((a : A) → m ≡ ok a → Gives x (f a))
      → Gives x (m >>= f)
  Gives-bind x (ok a) f g = g a refl
  Gives-bind x abort f g = aborted
  Gives-bind x fault f g = faulted
  Gives-bind x spin f g = spun

  pub same_out : (x x' : Exchange S) → x'.out ≡ x.out → Adds x x'
  same_out x x' e = record { frames = []; out = e ∙ sym (append-nil x.out); whole = no_frames }

  pub send-Adds :
      (h : BinaryHeader) (body : List ℕ) (x x0 : Exchange S)
      → x0.out ≡ x.out
      → length body ≡ h.body_len
      → Adds x (send h body x0)
  unfolding send
  send-Adds h body x x0 e len = record {
    frames = header_bytes h ++ (body ++ []);
    out = rw (e, append-nil body) refl;
    whole = frame h body [] len no_frames;
  }

  pub Adds-trans : (x y z : Exchange S) → Adds x y → Adds y z → Adds x z
  Adds-trans x y z p q = record {
    frames = p.frames ++ q.frames;
    out = q.out ∙ rw p.out (append_assoc x.out p.frames q.frames);
    whole = both p.frames q.frames p.whole q.whole;
  }
    where
      both : (a b : List ℕ) → Frames a → Frames b → Frames (a ++ b)
      both _ b no_frames f = f
      both _ b (frame h body rest len more) f =
          subst Frames
            (ap (λ (l : List ℕ). header_bytes h ++ l) (sym (append_assoc body rest b))
              ∙ sym (append_assoc (header_bytes h) (body ++ rest) b))
            (frame h body (rest ++ b) len (both rest b more f))
