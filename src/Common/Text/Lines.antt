-- ===== src/Common/Text/Lines.antt =====
-- A line of words joined by single spaces is read back by `split(/\s+/)`.
use Prim.Native.Char.{Char}
use Prim.Native.String.{String}
use text.Mathlib.TextLemmas.{nil-append, cons-append, append-nil, cons-ne-nil}
use quark_cache.Common.{◌≡◌, sym, ap, ◌∙◌, ◌≢◌, true, false, List, [], ◌∷◌, All}
use quark_cache.Common.Text.{is_space, ◌+++◌, trim, split_from, split_spaces, join}
use quark_cache.Common.Text.Words.{
  IsWord, NoSpace, StartsWell, EndsWell, split_word, split_gap, StartsWell-append, append-ne-nil,
  EndsWell-word, EndsWell-append, trim_start_of_StartsWell, trim_end_of_EndsWell,
}

abbrev space : Char
space = " "

space-append : (s : String) → " " +++ s ≡ String.◌∷◌ space s
space-append s = cons-append space "" s ∙ ap (String.◌∷◌ space) (nil-append s)

space-ne-nil : (s : String) → " " +++ s ≢ ""
space-ne-nil s e = cons-ne-nil space s (sym (space-append s) ∙ e)

record IsLine (s : String) : Type 0 where
  starts : StartsWell s
  ends : EndsWell s
  full : s ≢ ""

join-IsLine :
    (w : String) (ws : List String) → IsWord w → All IsWord ws → IsLine (join " " (w ∷ ws))
unfolding join
join-IsLine w [] h k = record {
  starts = rw append-nil at (StartsWell-append w "" h);
  ends = EndsWell-word w h.0;
  full = h.1;
}
join-IsLine w (v ∷ ws) h (hv, k) =
    let rest = join-IsLine v ws hv k in
    record {
      starts = StartsWell-append w _ h;
      ends = EndsWell-append w _ (EndsWell-append " " _ rest.ends rest.full) (space-ne-nil _);
      full = append-ne-nil w _ h;
    }

split_from_word : (w : String) → NoSpace w → split_from false "" w ≡ w ∷ []
unfolding split_from
split_from_word w h =
    ap (split_from false "") (sym (append-nil w))
    ∙ split_word "" w "" h
    ∙ ap (λ (t : String). t ∷ []) (nil-append w)

split_from_space : (cur s : String) → split_from false cur (" " +++ s) ≡ cur ∷ split_from true "" s
unfolding split_from is_space
split_from_space cur s = rw space-append

split_from-join :
    (w : String) (ws : List String)
    → IsWord w
    → All IsWord ws
    → split_from false "" (join " " (w ∷ ws)) ≡ w ∷ ws
unfolding join
split_from-join w [] h k = split_from_word w h.0
split_from-join w (v ∷ ws) h (hv, k) =
    let rest = join-IsLine v ws hv k in
    rw (split_word "" w _ h.0, nil-append, split_from_space)
      (ap (◌∷◌ w) (split_gap _ rest.starts rest.full ∙ split_from-join v ws hv k))

pub trim-join :
    (w : String) (ws : List String)
    → IsWord w
    → All IsWord ws
    → trim (join " " (w ∷ ws)) ≡ join " " (w ∷ ws)
unfolding trim
trim-join w ws h k =
    let line = join-IsLine w ws h k in
    rw (trim_start_of_StartsWell _ line.starts) (trim_end_of_EndsWell _ line.ends)

pub split_spaces-join :
    (w : String) (ws : List String)
    → IsWord w
    → All IsWord ws
    → split_spaces (join " " (w ∷ ws)) ≡ w ∷ ws
unfolding split_spaces
split_spaces-join w ws h k = split_from-join w ws h k

pub join-ne-nil :
    (w : String) (ws : List String) → IsWord w → All IsWord ws → join " " (w ∷ ws) ≢ ""
join-ne-nil w ws h k = (join-IsLine w ws h k).full
