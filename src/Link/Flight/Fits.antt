-- ===== src/Link/Flight/Fits.antt =====
-- Lines that answer the requests that wait, each in its turn and none too many.
use cuttle_db.Prelude.{
  ℕ, zero, suc, true, false, List, [], ◌∷◌, ◌++◌, map, append_assoc, ◌≡◌, refl, sym, ap, subst, ◌∙◌,
  length, All, Text,
}
use cuttle_db.Link.{Server, IsServer, serve, replies}
use cuttle_db.Transport.Router.{line, lines, failed, Log, is_event}
use cuttle_db.Transport.Router.Queue.{Request, one, many, Queue, receive, fails, arrive, act_all}

-- `Fits qs ls log`: the requests `qs`, given the lines `ls`, are all settled, as `log` says.
pub data Fits : List Request → List Text → Log → Type 0 where
  done : Fits [] [] []
  event :
      {qs : List Request} {ls : List Text} {log : Log} (e : Text)
      → is_event e ≡ true
      → Fits qs ls log
      → Fits qs (e ∷ ls) log
  reply :
      {qs : List Request} {ls : List Text} {log : Log} (q : Request) (l : Text)
      → is_event l ≡ false
      → Fits (receive (q ∷ qs) l).0 ls log
      → Fits (q ∷ qs) (l ∷ ls) ((receive (q ∷ qs) l).1 ++ log)

-- Requests behind the first do not matter to a line.
reply-append :
    (q : Request) (qs rs : List Request) (l : Text) (ms : List Text) (log more : Log)
    → is_event l ≡ false
    → Fits ((receive (q ∷ qs) l).0 ++ rs) ms (log ++ more)
    → Fits (q ∷ (qs ++ rs)) (l ∷ ms) (((receive (q ∷ qs) l).1 ++ log) ++ more)
reply-append (one p) qs rs l ms log more h f = reply (one p) l h f
reply-append (many p got zero) qs rs l ms log more h f = reply (many p got zero) l h f
reply-append (many p got (suc k)) qs rs l ms log more h f = reply (many p got (suc k)) l h f

-- Later requests wait for later lines.
pub Fits-append :
    {qs rs : List Request} {ls ms : List Text} {log more : Log}
    → Fits qs ls log
    → Fits rs ms more
    → Fits (qs ++ rs) (ls ++ ms) (log ++ more)
Fits-append done g = g
Fits-append (event e h f) g = event e h (Fits-append f g)
Fits-append {rs = rs} {ms = ms} {more = more} (reply {qs} {ls} {log} q l h f) g =
    reply-append q qs rs l (ls ++ ms) log more h (Fits-append f g)

-- An event may come anywhere.
pub Fits-event :
    {qs : List Request} {log : Log} (a b : List Text) (e : Text)
    → is_event e ≡ true
    → Fits qs (a ++ b) log
    → Fits qs (a ++ e ∷ b) log
Fits-event [] b e h f = event e h f
Fits-event (l ∷ a) b e h (event _ k f) = event l k (Fits-event a b e h f)
Fits-event (l ∷ a) b e h (reply q _ k f) = reply q l k (Fits-event a b e h f)

act_all-event :
    (l : Text) (a : List Text) (q : Queue)
    → is_event l ≡ true
    → act_all (map arrive (l ∷ a)) q ≡ act_all (map arrive a) q
unfolding act_all
act_all-event l a q h = rw h refl

act_all-reply :
    (l : Text) (a : List Text) (qs : List Request) (n : ℕ)
    → is_event l ≡ false
    → act_all (map arrive (l ∷ a)) (record { pending = qs; next = n }) ≡ (
        let (q, log) = act_all (map arrive a) (record { pending = (receive qs l).0; next = n }) in
        (q, (receive qs l).1 ++ log))
unfolding act_all
act_all-reply l a qs n h = rw h refl

-- What has come has settled a part of the log, and the rest is to come.
abbrev pub Splits : ℕ → List Text → Log → Queue × Log → Type 0
Splits n ls log (q, now) =
    (q.next ≡ n) × (later : Log) × (log ≡ now ++ later) × Fits q.pending ls later

-- When the first lines have come.
pub Fits-arrive :
    {qs : List Request} {log : Log} (a b : List Text) (n : ℕ)
    → Fits qs (a ++ b) log
    → Splits n b log (act_all (map arrive a) (record { pending = qs; next = n }))
Fits-arrive [] b n f = unfold act_all in (refl, _, refl, f)
Fits-arrive {qs} {log} (l ∷ a) b n (event _ k f) =
    subst (Splits n b log) (sym (act_all-event l a _ k)) (Fits-arrive a b n f)
Fits-arrive (l ∷ a) b n (reply {qs} {ls} {log} q _ k f) =
    let (same, later, e, g) = Fits-arrive a b n f in
    let first = (receive (q ∷ qs) l).1 in
    subst (Splits n b (first ++ log)) (sym (act_all-reply l a (q ∷ qs) n k))
      (same, later, ap (λ (rest : Log). first ++ rest) e ∙ sym (append_assoc first _ later), g)

-- Without a line nothing can wait.
pub Fits-nil :
    {qs : List Request} {ls : List Text} {log : Log}
    → Fits qs ls log
    → ls ≡ []
    → (qs ≡ []) × (log ≡ [])
Fits-nil done e = (refl, refl)
Fits-nil (event l k f) e = absurd (cc)
Fits-nil (reply q l k f) e = absurd (cc)

-- The same calls, all rejected.
abbrev pub rejected : Text → Log → Log
rejected e = map (λ x. (x.0, failed e))

-- The requests that wait are those that the lines to come would settle.
pub Fits-fails :
    {qs : List Request} {ls : List Text} {log : Log} (e : Text)
    → Fits qs ls log
    → map (fails e) qs ≡ rejected e log
Fits-fails e done = refl
Fits-fails e (event l k f) = Fits-fails e f
Fits-fails e (reply (one p) l k f) = ap (λ (log : Log). (p, failed e) ∷ log) (Fits-fails e f)
Fits-fails e (reply (many p got zero) l k f) =
    ap (λ (log : Log). (p, failed e) ∷ log) (Fits-fails e f)
Fits-fails e (reply (many p got (suc k)) l h f) = Fits-fails e f

module _ {S : Type 0} (v : Server S) (h : IsServer v) where
  Fits-events :
      (es : List Text) {qs : List Request} {ls : List Text} {log : Log}
      → All (λ e. is_event e ≡ true) es
      → Fits qs ls log
      → Fits qs (es ++ ls) log
  Fits-events [] g f = f
  Fits-events (e ∷ es) g f = event e g.0 (Fits-events es g.1 f)

  -- What the server writes for a command, and for those of a batch.
  pub Fits-one :
      (p : ℕ) (cmd : Text) (s : S)
      → Fits (one p ∷ []) (serve v (cmd ∷ []) s).0 ((p, line (v.answer cmd s).0) ∷ [])
  unfolding serve
  Fits-one p cmd s =
      Fits-events (v.events cmd s) (h.event cmd s)
        (reply (one p) (v.answer cmd s).0 (h.reply cmd s) done)

  pub Fits-many :
      (p : ℕ) (got : List Text) (cmd : Text) (cmds : List Text) (s : S)
      → Fits
          (many p got (length cmds) ∷ [])
          (serve v (cmd ∷ cmds) s).0
          ((p, lines (got ++ (replies v (cmd ∷ cmds) s).0)) ∷ [])
  unfolding serve replies
  Fits-many p got cmd [] s =
      Fits-events (v.events cmd s) (h.event cmd s)
        (reply (many p got zero) (v.answer cmd s).0 (h.reply cmd s) done)
  Fits-many p got cmd (next ∷ cmds) s =
      let (l, s') = v.answer cmd s in
      subst
        (λ (out : List Text).
          Fits (many p got (suc (length cmds)) ∷ []) (serve v (cmd ∷ next ∷ cmds) s).0
            ((p, lines out) ∷ []))
        (append_assoc got (l ∷ []) (replies v (next ∷ cmds) s').0)
        (Fits-events (v.events cmd s) (h.event cmd s) (
          reply (many p got (suc (length cmds))) l (h.reply cmd s)
            (Fits-many p (got ++ l ∷ []) next cmds s')))
