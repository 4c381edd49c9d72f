-- ===== src/Chanx/Merge/Interleaving.antt =====
-- chanx/merge.go, `Merge`: what its output is.
use scoped.Base.{
  append-nil, if◌then◌else◌, ℕ, ◌≡◌, refl, ◌∙◌, sym, ap, subst, true, false, Option, none, some,
  List, [], ◌∷◌, ◌++◌, arith, length, map, get_elem?, set, replicate, total, total-set, le-total,
  All, All-get, All-set,
}
use scoped.Errors.{is_nil}
use scoped.Chanx.Merge.System.{
  Pc, selecting, sending, returned, gave_up, Input, Forwarder, System, forwarders_of, init, Forward,
  recv, recv_closed, done_receiving, send, send_closed, done_sending, Step, forward, close_out,
  end_ctx, Reach, here, next,
}
use scoped.Chanx.Merge.Forwarding.{
  map-set, get-map, map-set_same, pc_items, whole, alive_at, lossy_at, alive, IsThrough,
  Forward-Forwarded,
}

-- `out` takes from the lists in turns, from each in its order, and all of them.
pub data IsInterleaved {ℓ} {T : Type ℓ} : List (List T) → List T → Type ℓ where
  untouched : (n : ℕ) → IsInterleaved (replicate n []) []
  from :
      {ls : List (List T)} {out l : List T} (i : ℕ) (v : T)
      → get_elem? ls i ≡ some l
      → IsInterleaved ls out
      → IsInterleaved (set ls i (l ++ v ∷ [])) (out ++ v ∷ [])

module _ {ℓ} {T : Type ℓ} where
  record Inv (first : List (Forwarder T)) (m : System T) : Type ℓ where
    wg : m.wg ≡ total alive m.forwarders
    closed : (if m.out_closed then m.wg else 0) ≡ 0
    safe : m.panicked ≡ false
    whole : map whole m.forwarders ≡ map whole first
    out : IsInterleaved (map (λ f. f.forwarded) m.forwarders) m.out
    through : is_nil m.ctx_err ≡ true → All IsThrough m.forwarders

  abbrev pub sent_of : Forwarder T → List T
  sent_of f = f.forwarded

  kept_out :
      (m : System T) (i : ℕ) (f f' : Forwarder T)
      → get_elem? m.forwarders i ≡ some f
      → f'.forwarded ≡ f.forwarded
      → IsInterleaved (map sent_of m.forwarders) m.out
      → IsInterleaved (map sent_of (set m.forwarders i f')) m.out
  kept_out m i f f' at q o =
      subst (λ ls. IsInterleaved ls m.out) (sym (map-set_same sent_of m.forwarders i f f' at q)) o

  Forward-out :
      (m n : System T) (i : ℕ) (f f' : Forwarder T)
      → get_elem? m.forwarders i ≡ some f
      → Forward m f n f'
      → IsInterleaved (map sent_of m.forwarders) m.out
      → IsInterleaved (map sent_of (set m.forwarders i f')) n.out
  Forward-out m n i f f' at (recv h q) o = kept_out m i f f' at refl o
  Forward-out m n i f f' at (recv_closed h q e) o = kept_out m i f f' at refl o
  Forward-out m n i f f' at (done_receiving h q) o = kept_out m i f f' at refl o
  Forward-out m n i f f' at (send {v} h q) o =
      subst (λ ls. IsInterleaved ls (m.out ++ v ∷ [])) (sym (map-set sent_of m.forwarders i f'))
        (from i v (get-map sent_of m.forwarders i f at) o)
  Forward-out m n i f f' at (send_closed h q) o = kept_out m i f f' at refl o
  Forward-out m n i f f' at (done_sending h q) o = kept_out m i f f' at refl o

  same_ctx : (m n : System T) (f f' : Forwarder T) → Forward m f n f' → n.ctx_err ≡ m.ctx_err
  same_ctx m n f f' (recv h q) = refl
  same_ctx m n f f' (recv_closed h q e) = refl
  same_ctx m n f f' (done_receiving h q) = refl
  same_ctx m n f f' (send h q) = refl
  same_ctx m n f f' (send_closed h q) = refl
  same_ctx m n f f' (done_sending h q) = refl

  Step-Inv : (first : List (Forwarder T)) (m n : System T) → Step m n → Inv first m → Inv first n
  Step-Inv first m n (forward {n = k} {f} {f'} i at mv) v =
      let b =
        Forward-Forwarded m k f f' mv (omega (arith, v.wg, le-total alive m.forwarders i f at))
          v.closed in
      record {
        wg = omega (arith, v.wg, b.wg, total-set alive m.forwarders i f f' at);
        closed = ground (arith, v.closed, b.closed, b.wg, b.fewer);
        safe = b.safe ∙ v.safe;
        whole = map-set_same whole m.forwarders i f f' at b.whole ∙ v.whole;
        out = Forward-out m k i f f' at mv v.out;
        through = λ calm.
            let before = ap is_nil (sym (same_ctx m k f f' mv)) ∙ calm in
            let all = v.through before in
            All-set IsThrough m.forwarders i f' all
              (b.through before (All-get IsThrough m.forwarders i at all));
      }
  Step-Inv first m n (close_out h o) v = record {
    wg = v.wg;
    closed = h;
    safe = v.safe;
    whole = v.whole;
    out = v.out;
    through = v.through;
  }
  Step-Inv first m n (end_ctx e bad) v = record {
    wg = v.wg;
    closed = v.closed;
    safe = v.safe;
    whole = v.whole;
    out = v.out;
    through = λ calm. absurd (ground (arith, calm, bad));
  }

  -- The values of the inputs that are not nil.
  abbrev pub inputs_of : List (Option (Input T)) → List (List T)
  inputs_of [] = []
  inputs_of (none ∷ chs) = inputs_of chs
  inputs_of (some input ∷ chs) = input.coming ∷ inputs_of chs

  fresh_wg :
      (chs : List (Option (Input T))) → length (forwarders_of chs) ≡ total alive (forwarders_of chs)
  unfolding forwarders_of
  fresh_wg [] = refl
  fresh_wg (none ∷ chs) = fresh_wg chs
  fresh_wg (some input ∷ chs) = omega (arith, fresh_wg chs)

  fresh_out :
      (chs : List (Option (Input T)))
      → map sent_of (forwarders_of chs) ≡ replicate (length (forwarders_of chs)) []
  unfolding forwarders_of
  fresh_out [] = refl
  fresh_out (none ∷ chs) = fresh_out chs
  fresh_out (some input ∷ chs) = ap (λ l. [] ∷ l) (fresh_out chs)

  fresh-IsThrough : (chs : List (Option (Input T))) → All IsThrough (forwarders_of chs)
  unfolding forwarders_of
  fresh-IsThrough [] = tt
  fresh-IsThrough (none ∷ chs) = fresh-IsThrough chs
  fresh-IsThrough (some input ∷ chs) = ((refl, refl), fresh-IsThrough chs)

  fresh_whole : (chs : List (Option (Input T))) → map whole (forwarders_of chs) ≡ inputs_of chs
  unfolding forwarders_of
  fresh_whole [] = refl
  fresh_whole (none ∷ chs) = fresh_whole chs
  fresh_whole (some input ∷ chs) = ap (λ l. input.coming ∷ l) (fresh_whole chs)

  Reach-Inv :
      (chs : List (Option (Input T))) (m : System T)
      → Reach (init chs) m
      → Inv (forwarders_of chs) m
  Reach-Inv chs m here = record {
    wg = fresh_wg chs;
    closed = refl;
    safe = refl;
    whole = refl;
    out =
        subst (λ ls. IsInterleaved ls []) (sym (fresh_out chs))
          (untouched (length (forwarders_of chs)));
    through = λ calm. fresh-IsThrough chs;
  }
  Reach-Inv chs m (next {n} r st) = Step-Inv (forwarders_of chs) n m st (Reach-Inv chs n r)

  whole_over :
      (kept coming : List T) (pc : Pc T)
      → alive_at pc ≡ 0
      → lossy_at pc ≡ 0
      → length coming ≡ 0
      → kept ++ (pc_items pc ++ coming) ≡ kept
  whole_over kept [] returned a l c = append-nil kept
  whole_over kept (x ∷ coming) returned a l c = absurd (omega (arith, c))
  whole_over kept coming (gave_up v) a l c = absurd (omega (arith, l))
  whole_over kept coming selecting a l c = absurd (omega (arith, a))
  whole_over kept coming (sending v) a l c = absurd (omega (arith, a))

  sent_whole : (f : Forwarder T) → alive f ≡ 0 → IsThrough f → whole f ≡ f.forwarded
  sent_whole f h t = whole_over f.forwarded f.input.coming f.pc h t.0 (ground (arith, h, t.1))

  whole-sent_of :
      (fs : List (Forwarder T))
      → total alive fs ≡ 0
      → All IsThrough fs
      → map whole fs ≡ map sent_of fs
  whole-sent_of [] h a = refl
  whole-sent_of (f ∷ fs) h a =
      let rest = whole-sent_of fs (omega (arith, h)) a.1 in
      let own = sent_whole f (omega (arith, h)) a.0 in
      ap (λ l. l ∷ map whole fs) own ∙ ap (λ ls. f.forwarded ∷ ls) rest

  -- In every state that `Merge` reaches, with any inputs, nil or not, and whenever its context
  -- ends: nothing was sent on the closed output, what was sent takes from the inputs in turns and
  -- from each in its order, and for each input the values sent, the one that a goroutine holds or
  -- gave up, and those still to come are the values of that input.
  pub merge-IsInterleaved :
      (chs : List (Option (Input T))) (m : System T)
      → Reach (init chs) m
      → (m.panicked ≡ false)
        × IsInterleaved (map sent_of m.forwarders) m.out
        × (map whole m.forwarders ≡ inputs_of chs)
  merge-IsInterleaved chs m r =
      let v = Reach-Inv chs m r in (v.safe, v.out, v.whole ∙ fresh_whole chs)

  -- When the output of `Merge` is closed and the context has not ended, it took all values of all
  -- inputs.
  pub merge_complete :
      (chs : List (Option (Input T))) (m : System T)
      → Reach (init chs) m
      → m.out_closed ≡ true
      → is_nil m.ctx_err ≡ true
      → IsInterleaved (inputs_of chs) m.out
  merge_complete chs m r h calm =
      let v = Reach-Inv chs m r in
      let idle : total alive m.forwarders ≡ 0 = ground (arith, v.closed, v.wg, h) in
      subst (λ ls. IsInterleaved ls m.out)
        (sym (whole-sent_of m.forwarders idle (v.through calm)) ∙ v.whole ∙ fresh_whole chs) v.out
