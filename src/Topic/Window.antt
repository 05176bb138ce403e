-- ===== src/Topic/Window.antt =====
-- The sliding window: the intervals between the newest readings.
use aimrt_comm.Base.{
  ℕ, ◌+◌, ◌-◌, ◌%◌, ◌^◌, ◌≤◌, ◌<◌, ◌≡◌, ◌⊎◌, refl, sym, ap, ◌∙◌, true, false, ◌==◌, ◌||◌, ltb, List,
  [], ◌∷◌, ◌++◌, length, length-append, erase_idx, arith, Bool-cases, inl, inr,
}
use mathlib.Core.List.{append_assoc, append-nil}
use aimrt_comm.Topic.{TopicData, new_topic, delta, trim, feed}

-- the intervals between consecutive readings
abbrev pub deltas : ℕ → List ℕ → List ℕ
deltas t [] = []
deltas t (u ∷ us) = (u - t) ∷ deltas u us

-- the clock does not go back
abbrev pub Ascending : ℕ → List ℕ → Type 0
Ascending t [] = Unit
Ascending t (u ∷ us) = (t ≤ u) × (u < 2 ^ 64) × Ascending u us

-- The list is the end of another one: all of it, or as many as the window has.
pub record Newest (window : ℕ) (all newest : List ℕ) : Type 0 where
  pub older : List ℕ
  pub split : older ++ newest ≡ all
  pub few : length newest ≤ window
  pub full : (older ≡ []) ⊎ (length newest ≡ window)

pub feed_all : ℕ → List ℕ → TopicData → TopicData
feed_all window [] topic = topic
feed_all window (t ∷ ts) topic = feed_all window ts (feed window t topic)

pub trim-Newest :
    (w d : ℕ) (all xs : List ℕ) → Newest w all xs → Newest w (all ++ d ∷ []) (trim w (xs ++ d ∷ []))
unfolding trim
trim-Newest w d all xs n = elim (Bool-cases (ltb w (length (xs ++ d ∷ [])))) [
  | inl over ↦ rw over (shifted xs n over)
  | inr fits ↦ rw fits (record {
    older = n.older;
    split = sym (append_assoc n.older xs (d ∷ [])) ∙ ap (λ l. l ++ d ∷ []) n.split;
    few = ground arith;
    full = at_start n.full fits;
  })
]
  where
    at_start :
        (n.older ≡ []) ⊎ (length xs ≡ w)
        → ltb w (length (xs ++ d ∷ [])) ≡ false
        → (n.older ≡ []) ⊎ (length (xs ++ d ∷ []) ≡ w)
    at_start (inl e) h = inl e
    at_start (inr e) h = absurd (ground (arith, length-append xs (d ∷ [])))

    shifted :
        (xs : List ℕ)
        → Newest w all xs
        → ltb w (length (xs ++ d ∷ [])) ≡ true
        → Newest w (all ++ d ∷ []) (erase_idx (xs ++ d ∷ []) 0)
    shifted [] n h = record {
      older = all ++ d ∷ [];
      split = append-nil (all ++ d ∷ []);
      few = ground arith;
      full = inr (ground arith);
    }
    shifted (x ∷ xs) n h = record {
      older = n.older ++ x ∷ [];
      split =
          append_assoc n.older (x ∷ []) (xs ++ d ∷ [])
          ∙ sym (append_assoc n.older (x ∷ xs) (d ∷ []))
          ∙ ap (λ l. l ++ d ∷ []) n.split;
      few = ground (arith, n.few, length-append xs (d ∷ []));
      full = inr (ground (arith, n.few, length-append xs (d ∷ [])));
    }

record Started (topic : TopicData) : Type 0 where
  begun : 0 < topic.msg_t0
  ordered : topic.msg_t0 ≤ topic.msg_tn

feed_next :
    (w u : ℕ) (topic : TopicData)
    → Started topic
    → topic.msg_tn ≤ u
    → u < 2 ^ 64
    → feed w u topic ≡ record {
      msg_t0 = topic.msg_t0;
      msg_tn = u;
      times = trim w (topic.times ++ (u - topic.msg_tn) ∷ []);
      is_active = true;
    }
unfolding feed delta
feed_next w u topic s le small =
    let exact : (u + 2 ^ 64 - topic.msg_tn) % 2 ^ 64 ≡ u - topic.msg_tn = omega arith in
    let running : (topic.msg_t0 == 0 || ltb u topic.msg_t0) ≡ false =
      ground (arith, s.begun, s.ordered) in
    let given : u == 0 ≡ false = ground (arith, s.begun, s.ordered) in
    rw (given, running, exact) refl

feed_all-Newest :
    (w : ℕ) (us all : List ℕ) (topic : TopicData)
    → Started topic
    → Ascending topic.msg_tn us
    → Newest w all topic.times
    → Newest w (all ++ deltas topic.msg_tn us) (feed_all w us topic).times
unfolding feed_all
feed_all-Newest w [] all topic s a n = rw append-nil n
feed_all-Newest w (u ∷ us) all topic s (le, small, a) n =
    rw
      (
        ap (feed_all w us) (feed_next w u topic s le small),
        ← append_assoc all ((u - topic.msg_tn) ∷ []) (deltas u us),
      )
      (feed_all-Newest w us (all ++ (u - topic.msg_tn) ∷ []) (next u) (next_Started u le) a
        (trim-Newest w (u - topic.msg_tn) all topic.times n))
  where
    next : ℕ → TopicData
    next u = record {
      msg_t0 = topic.msg_t0;
      msg_tn = u;
      times = trim w (topic.times ++ (u - topic.msg_tn) ∷ []);
      is_active = true;
    }

    next_Started : (u : ℕ) → topic.msg_tn ≤ u → Started (next u)
    next_Started u le = record { begun = s.begun; ordered = omega (arith, s.ordered) }

feed_first :
    (w t : ℕ)
    → 0 < t
    → feed w t new_topic ≡ record { msg_t0 = t; msg_tn = t; times = []; is_active = true }
unfolding feed trim
feed_first w t pos =
    let given : t == 0 ≡ false = ground arith in
    let fits : ltb w 0 ≡ false = ground arith in rw (given, fits) refl

-- After any readings of a clock that does not go back, the first one not the least time there is, a
-- new topic has the intervals between them, the oldest of them gone where there are more than the
-- window has.
pub Newest-intervals :
    (window t : ℕ) (ts : List ℕ)
    → 0 < t
    → Ascending t ts
    → Newest window (deltas t ts) (feed_all window ts (feed window t new_topic)).times
Newest-intervals window t ts pos a = rw (feed_first window t pos) (
    feed_all-Newest window ts [] (record { msg_t0 = t; msg_tn = t; times = []; is_active = true })
      (record { begun = pos; ordered = omega arith }) a
      (record { older = []; split = refl; few = omega arith; full = inl refl }))
