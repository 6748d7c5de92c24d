-- ===== src/Link/Flight/Tcp/Lines.antt =====
-- The lines of the stream that the client reads, and those of the stream that it writes.
use cuttle_db.Prelude.{
  ◌+◌, length-append, List, [], ◌∷◌, ◌++◌, map, append_assoc, append-nil, ◌≡◌, refl, sym, ap, ◌∙◌,
  arith, length, All, Lacks, Text,
}
use cuttle_db.Text.{split, join}
use cuttle_db.Text.Laws.{split-append}
use cuttle_db.Transport.Router.{Router, strip_cr}
use cuttle_db.Transport.Router.Queue.{arrive, perform_all}
use cuttle_db.Transport.Tcp.{Tcp, on_data, route_stripped}
use cuttle_db.Transport.Tcp.Pipeline.{frame, strip_cr-concat, Lacks-cr}
use cuttle_db.Transport.Tcp.Stream.{process, process-cons, process-append, on_data-process}

abbrev gather : Text → List Text → List Text
gather l got = got ++ strip_cr l ∷ []

-- What is left behind the last newline, and the lines.
abbrev pub read : Text → Text × List Text
read s = process gather (split b'\n' s) []

gather-append :
    (ps got : List Text)
    → process gather ps got ≡ ((process gather ps []).0, got ++ (process gather ps []).1)
gather-append [] got = ap (λ (ls : List Text). ([], ls)) (sym (append-nil got))
gather-append (p ∷ []) got = ap (λ (ls : List Text). (p, ls)) (sym (append-nil got))
gather-append (p ∷ q ∷ ps) got =
    let l = strip_cr p in
    let (rest, ls) = process gather (q ∷ ps) [] in
    gather-append (q ∷ ps) (got ++ l ∷ [])
    ∙ ap (λ (out : List Text). (rest, out)) (append_assoc got (l ∷ []) ls)
    ∙ ap (λ (out : Text × List Text). (out.0, got ++ out.1)) (sym (gather-append (q ∷ ps) (l ∷ [])))

-- `_onData` does to the router what the lines do.
process-gather :
    (ps : List Text) (r : Router)
    → process route_stripped ps r
      ≡ ((process gather ps []).0, perform_all (map arrive (process gather ps []).1) r)
unfolding perform_all
process-gather [] r = refl
process-gather (p ∷ []) r = refl
process-gather (p ∷ q ∷ ps) r =
    process-gather (q ∷ ps) (route_stripped p r)
    ∙ ap (λ (out : Text × List Text). (out.0, perform_all (map arrive out.1) r))
        (sym (gather-append (q ∷ ps) (strip_cr p ∷ [])))

pub on_data-read :
    (chunk : Text) (t : Tcp)
    → on_data chunk t ≡ (
        let (rest, ls) = read (t.buf ++ chunk) in
        record t { buf = rest; router = perform_all (map arrive ls) t.router })
on_data-read chunk t =
    on_data-process chunk t
    ∙ ap (λ (out : Text × Router). record t { buf = out.0; router = out.1 })
        (process-gather (split b'\n' (t.buf ++ chunk)) t.router)

-- A stream is read as its first part, and the rest with what was left over.
pub read-append :
    (a b : Text)
    → read (a ++ b) ≡ ((read ((read a).0 ++ b)).0, (read a).1 ++ (read ((read a).0 ++ b)).1)
read-append a b =
    process-append gather (length a + 1) a b [] (omega arith)
    ∙ gather-append (split b'\n' ((read a).0 ++ b)) (read a).1

read-cons :
    (p s : Text) → Lacks b'\n' p → read (p ++ b'\n' ∷ s) ≡ ((read s).0, strip_cr p ∷ (read s).1)
read-cons p s h =
    ap (λ (ps : List Text). process gather ps []) (split-append b'\n' p s h)
    ∙ process-cons gather p s []
    ∙ gather-append (split b'\n' s) (strip_cr p ∷ [])

read-frame : (ls : List Text) → All (Lacks b'\n') ls → read (frame ls) ≡ ([], ls)
read-frame [] h = unfold split in refl
read-frame (l ∷ ls) h =
    ap read (sym (append_assoc l (b'\r' ∷ []) (b'\n' ∷ frame ls)))
    ∙ read-cons (l ++ b'\r' ∷ []) (frame ls) (Lacks-cr l h.0)
    ∙ ap (λ (out : Text × List Text). (out.0, strip_cr (l ++ b'\r' ∷ []) ∷ out.1))
        (read-frame ls h.1)
    ∙ ap (λ (first : Text). ([], first ∷ ls)) (strip_cr-concat l)

-- Framed lines behind whole lines.
pub read-append_frame :
    (a : Text) (ls : List Text)
    → (read a).0 ≡ []
    → All (Lacks b'\n') ls
    → read (a ++ frame ls) ≡ ([], (read a).1 ++ ls)
read-append_frame a ls e h =
    read-append a (frame ls)
    ∙ ap (λ (rest : Text). ((read (rest ++ frame ls)).0, (read a).1 ++ (read (rest ++ frame ls)).1))
        e
    ∙ ap (λ (out : Text × List Text). (out.0, (read a).1 ++ out.1)) (read-frame ls h)

-- Commands, each with its newline.
abbrev pub lines_text : List Text → Text
lines_text [] = []
lines_text (cmd ∷ cmds) = cmd ++ b'\n' ∷ lines_text cmds

pub lines_text-append : (a b : List Text) → lines_text (a ++ b) ≡ lines_text a ++ lines_text b
lines_text-append [] b = refl
lines_text-append (cmd ∷ a) b =
    ap (λ (s : Text). cmd ++ b'\n' ∷ s) (lines_text-append a b)
    ∙ sym (append_assoc cmd (b'\n' ∷ lines_text a) (lines_text b))

pub lines_text-join :
    (cmd : Text) (cmds : List Text)
    → join (b'\n' ∷ []) (cmd ∷ cmds) ++ b'\n' ∷ [] ≡ lines_text (cmd ∷ cmds)
unfolding join
lines_text-join cmd [] = refl
lines_text-join cmd (d ∷ ds) =
    append_assoc cmd (b'\n' ∷ join (b'\n' ∷ []) (d ∷ ds)) (b'\n' ∷ [])
    ∙ ap (λ (s : Text). cmd ++ b'\n' ∷ s) (lines_text-join d ds)

cut_unique :
    (c d x y : Text)
    → Lacks b'\n' c
    → Lacks b'\n' d
    → c ++ b'\n' ∷ x ≡ d ++ b'\n' ∷ y
    → (c ≡ d) × (x ≡ y)
cut_unique [] [] x y h k e = (refl, (cc))
cut_unique [] (b ∷ d) x y h k e = absurd (k.0 (cc))
cut_unique (a ∷ c) [] x y h k e = absurd (h.0 (cc))
cut_unique (a ∷ c) (b ∷ d) x y h k e = let (p, q) = cut_unique c d x y h.1 k.1 (cc) in ((cc), q)

-- The line that a reader takes off is the first command.
pub first_line :
    (cmds : List Text) (cmd rest : Text)
    → All (Lacks b'\n') cmds
    → Lacks b'\n' cmd
    → lines_text cmds ≡ cmd ++ b'\n' ∷ rest
    → (more : List Text) × (cmds ≡ cmd ∷ more) × (rest ≡ lines_text more)
first_line [] [] rest h k e = absurd (cc)
first_line [] (b ∷ cmd) rest h k e = absurd (cc)
first_line (c ∷ cs) cmd rest h k e =
    let (p, q) = cut_unique c cmd (lines_text cs) rest h.0 k e in
    (cs, ap (λ (d : Text). d ∷ cs) p, sym q)

append_same : {A : Type 0} (xs ys : List A) → xs ≡ xs ++ ys → ys ≡ []
append_same xs [] e = refl
append_same xs (y ∷ ys) e = absurd (omega (arith, ap length e, length-append xs (y ∷ ys)))

-- What is left over has no line.
pub read_rest : (s : Text) → read (read s).0 ≡ ((read s).0, [])
read_rest s =
    let e : read s ≡ ((read ((read s).0 ++ [])).0, (read s).1 ++ (read ((read s).0 ++ [])).1) =
      ap read (sym (append-nil s)) ∙ read-append s [] in
    let none = append_same (read s).1 _ (ap (λ (out : Text × List Text). out.1) e) in
    ap read (sym (append-nil (read s).0))
    ∙ ap (λ (out : List Text). ((read ((read s).0 ++ [])).0, out)) none
    ∙ ap (λ (rest : Text). (rest, [])) (sym (ap (λ (out : Text × List Text). out.0) e))
