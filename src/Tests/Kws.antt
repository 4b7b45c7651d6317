-- ===== src/Tests/Kws.antt =====
-- Runs of the key phrase detections.
use pocketsphinx.Base.{◌≡◌, All, ◌⊎◌, ℕ, Bool, true, false, List, [], ◌∷◌, ◌&&◌, ◌==◌, pos, negsuc}
use pocketsphinx.Kws.{Detection, kws_detections_add}
use pocketsphinx.Kws.Merging.{Overlaps, Merges, kws_detections_add_lem}

abbrev pub same_chars : List ℕ → List ℕ → Bool
same_chars [] [] = true
same_chars [] (y ∷ ys) = false
same_chars (x ∷ xs) [] = false
same_chars (x ∷ xs) (y ∷ ys) = (x == y) && same_chars xs ys

abbrev early : Detection
early = record {
  keyphrase = b'o' ∷ b'k' ∷ [];
  sf = pos 3;
  ef = pos 9;
  prob = negsuc 40;
  ascr = negsuc 7;
}

abbrev late : Detection
late = record {
  keyphrase = b'o' ∷ b'k' ∷ [];
  sf = pos 5;
  ef = pos 12;
  prob = negsuc 20;
  ascr = negsuc 5;
}

kws_detections_add_lem_example :
    let ys = kws_detections_add same_chars (early ∷ []) late in
    (All (λ d. ¬ (Overlaps same_chars d late)) (early ∷ []) × (ys ≡ late ∷ early ∷ []))
    ⊎ Merges same_chars (early ∷ []) late ys
kws_detections_add_lem_example = kws_detections_add_lem same_chars (early ∷ []) late
