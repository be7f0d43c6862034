-- ===== src/Models/Stream.antt =====
-- What a model's stream yields: deltas, then the response that they make, or an exception.
use milky_frog_lite.Domain.Message.{ToolCall}
use milky_frog_lite.Events.{Attempt, raised, returned}
use milky_frog_lite.Prelude.{
  List, String, ◌∷◌, [], ◌++◌, ◌≡◌, fstring, All, map, subst, ap, sym, refl, append_assoc,
  Bool-cases, str_eq, inl, append-nil, inr,
}
use milky_frog_lite.Models.{
  Received, arrives, breaks, Delta, Gathered, part_of, gathered, gather_delta, yielded, response_of,
  stream_from, stream, nothing_gathered, JsonText, List, String, ◌∷◌, [], Attempt, map, fstring,
  ToolCall, str_eq,
}
use milky_frog_lite.Events.Loop.Model.{
  Chunk, text_delta, reasoning_delta, stream_done, stream_raises,
}

abbrev pub text_of : Chunk → List String
text_of (text_delta t) = t ∷ []
text_of (reasoning_delta t) = []
text_of (stream_done r) = []
text_of (stream_raises e) = []

abbrev pub reasoning_of : Chunk → List String
reasoning_of (text_delta t) = []
reasoning_of (reasoning_delta t) = t ∷ []
reasoning_of (stream_done r) = []
reasoning_of (stream_raises e) = []

abbrev pub texts : List Chunk → List String
texts [] = []
texts (c ∷ cs) = text_of c ++ texts cs

abbrev pub reasonings : List Chunk → List String
reasonings [] = []
reasonings (c ∷ cs) = reasoning_of c ++ reasonings cs

abbrev pub IsDelta : Chunk → Type 0
IsDelta (text_delta t) = Unit
IsDelta (reasoning_delta t) = Unit
IsDelta (stream_done r) = ⊥
IsDelta (stream_raises e) = ⊥

-- The last chunk: an exception, or the response whose texts are the ones given.
abbrev pub Closes : List String → List String → Chunk → Type 0
Closes content reasoning (stream_done r) =
    (r.content ≡ fstring content) × (r.reasoning ≡ fstring reasoning)
Closes content reasoning (stream_raises e) = Unit
Closes content reasoning (text_delta t) = ⊥
Closes content reasoning (reasoning_delta t) = ⊥

-- Deltas, and a last chunk that closes what was there and they.
pub record IsClosed (content reasoning : List String) (cs : List Chunk) : Type 0 where
  pub deltas : List Chunk
  pub last : Chunk
  pub split : cs ≡ deltas ++ last ∷ []
  pub are_deltas : All IsDelta deltas
  pub closes : Closes (content ++ texts deltas) (reasoning ++ reasonings deltas) last

prepend_text :
    (content reasoning : List String) (t : String) (cs : List Chunk)
    → IsClosed (content ++ t ∷ []) reasoning cs
    → IsClosed content reasoning (text_delta t ∷ cs)
prepend_text content reasoning t cs h = record {
  deltas = text_delta t ∷ h.deltas;
  last = h.last;
  split = ap (λ l. text_delta t ∷ l) h.split;
  are_deltas = (tt, h.are_deltas);
  closes =
      subst (λ l. Closes l (reasoning ++ reasonings h.deltas) h.last)
        (append_assoc content (t ∷ []) (texts h.deltas)) h.closes;
}

prepend_reasoning :
    (content reasoning : List String) (t : String) (cs : List Chunk)
    → IsClosed content (reasoning ++ t ∷ []) cs
    → IsClosed content reasoning (reasoning_delta t ∷ cs)
prepend_reasoning content reasoning t cs h = record {
  deltas = reasoning_delta t ∷ h.deltas;
  last = h.last;
  split = ap (λ l. reasoning_delta t ∷ l) h.split;
  are_deltas = (tt, h.are_deltas);
  closes =
      subst (λ l. Closes (content ++ texts h.deltas) l h.last)
        (append_assoc reasoning (t ∷ []) (reasonings h.deltas)) h.closes;
}

prepend_part :
    (content reasoning : List String) (t : String) (cs : List Chunk)
    → IsClosed (content ++ part_of t) reasoning cs
    → IsClosed content reasoning (map text_delta (part_of t) ++ cs)
prepend_part content reasoning t cs h = elim (Bool-cases (str_eq t "")) [
  | inl e ↦ rw e (subst (λ l. IsClosed l reasoning cs) (append-nil content) (rw e at h))
  | inr e ↦ rw e (prepend_text content reasoning t cs (rw e at h))
]

prepend_reasoned :
    (content reasoning : List String) (t : String) (cs : List Chunk)
    → IsClosed content (reasoning ++ part_of t) cs
    → IsClosed content reasoning (map reasoning_delta (part_of t) ++ cs)
prepend_reasoned content reasoning t cs h = elim (Bool-cases (str_eq t "")) [
  | inl e ↦ rw e (subst (λ l. IsClosed content l cs) (append-nil reasoning) (rw e at h))
  | inr e ↦ rw e (prepend_reasoning content reasoning t cs (rw e at h))
]

module _ (json : JsonText) (model : String) where
  response-IsClosed :
      (g : Gathered) (calls : Attempt (List ToolCall))
      → IsClosed g.content_parts g.reasoning_parts (response_of json model g calls ∷ [])
  unfolding response_of
  response-IsClosed g (raised e) = record {
    deltas = [];
    last = stream_raises e;
    split = refl;
    are_deltas = tt;
    closes = tt;
  }
  response-IsClosed g (returned calls) = record {
    deltas = [];
    last = response_of json model g (returned calls);
    split = refl;
    are_deltas = tt;
    closes = (
      ap fstring (sym (append-nil g.content_parts)),
      ap fstring (sym (append-nil g.reasoning_parts)),
    );
  }

  yielded-IsClosed :
      (ds : List Delta) (g : Gathered) (cs : List Chunk)
      → IsClosed (gather_delta ds g).content_parts (gather_delta ds g).reasoning_parts cs
      → IsClosed g.content_parts g.reasoning_parts (yielded ds ++ cs)
  unfolding yielded gather_delta
  yielded-IsClosed [] g cs h = h
  yielded-IsClosed (d ∷ _) g cs h =
      subst (IsClosed g.content_parts g.reasoning_parts)
        (sym (append_assoc (map reasoning_delta (part_of d.reasoning_content)) _ cs))
        (prepend_reasoned g.content_parts g.reasoning_parts d.reasoning_content _
          (prepend_part g.content_parts _ d.content cs h))

  stream_from-IsClosed :
      (received : List Received) (g : Gathered)
      → IsClosed g.content_parts g.reasoning_parts (stream_from json model g received)
  unfolding stream_from gathered
  stream_from-IsClosed [] g = response-IsClosed g _
  stream_from-IsClosed (breaks e ∷ received) g = record {
    deltas = [];
    last = stream_raises e;
    split = refl;
    are_deltas = tt;
    closes = tt;
  }
  stream_from-IsClosed (arrives c ∷ received) g =
      yielded-IsClosed c.choices _ _ (stream_from-IsClosed received (gathered c g))

  -- Whatever arrives, a stream yields text and reasoning deltas and then one last chunk: an
  -- exception, or the response, whose text and reasoning are the deltas that were yielded, in their
  -- order.
  pub stream-IsClosed : (received : List Received) → IsClosed [] [] (stream json model received)
  unfolding stream
  stream-IsClosed received = stream_from-IsClosed received nothing_gathered
