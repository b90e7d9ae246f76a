-- ===== src/Pipeline/VideoAnalysis/Bounds.antt =====
-- The ranges of the chunks and the bounds of the results of a video analysis.
use ai_detention.Prelude.Rounding.{round_div, round_div-le}
use ai_detention.Pipeline.VideoAnalysis.{
  VideoResult, Streaming, completed, analyze_stream, stream_chunks, next_chunk, total_chunks,
  chunk_size, reads_chunk, chunk_range,
}
use ai_detention.Prelude.{
  ℕ, Bool, String, length, ◌≡◌, min, ◌≤◌, sym, ◌<◌, arith, suc, ◌+◌, Bool-cases, ◌/◌, inl, ◌*◌,
  length-append, inr, zero, refl,
}

module _ (get_object : ℕ → ℕ → Bool) (duration_text : ℕ → String) (content_length : ℕ) where
  abbrev after_chunks : ℕ → Streaming
  after_chunks n = stream_chunks get_object duration_text content_length n

  -- The loop counts the segments, at most one for each chunk.
  stream-counts :
      (n : ℕ)
      → (length (after_chunks n).transcribed_segments ≡ (after_chunks n).processed_chunks)
        × ((after_chunks n).processed_chunks ≤ n)
  unfolding stream_chunks next_chunk
  stream-counts zero = (refl, omega arith)
  stream-counts (suc n) =
      elim (Bool-cases (reads_chunk get_object duration_text content_length n)) [
        | inl read ↦
            rw (read, length-append)
              (omega (arith, stream-counts n), omega (arith, stream-counts n))
        | inr lost ↦ rw lost (omega (arith, stream-counts n), omega (arith, stream-counts n))
      ]

  -- The chunks that are read follow one another without a gap, and none of them reaches past the
  -- last whole chunk of a video that has one: the rest of such a video is never read.
  chunks_adjacent :
      (chunk_idx : ℕ)
      → chunk_size ≤ content_length
      → chunk_idx < total_chunks content_length
      → ((chunk_range content_length chunk_idx).1 + 1
          ≡ (chunk_range content_length (chunk_idx + 1)).0)
        × ((chunk_range content_length chunk_idx).1 < content_length / chunk_size * chunk_size)
  unfolding chunk_range total_chunks
  chunks_adjacent chunk_idx whole inside = omega arith

  abbrev pub InLimits : VideoResult → Type 0
  InLimits (completed scores metadata claims) =
      (metadata.chunks_processed ≡ metadata.segments_transcribed)
      × (metadata.segments_transcribed ≤ 100)
      × (metadata.segments_transcribed ≤ metadata.chunks_total)
      × (scores.presentation_clarity ≤ 3000)
      × (scores.content_completeness ≤ 10000)
  InLimits result = Unit

  at_most_clear : (k : ℕ) → k ≤ 100 → min 10000 (round_div (k * 3 * 10000) 1000) ≤ 3000
  at_most_clear k h =
      omega (arith, round_div-le (k * 3 * 10000) 1000 3000 (omega arith) (omega arith))

  -- Every analysis of a stream transcribes at most 100 segments and at most one per chunk, counts as many
  -- chunks, and gives a clarity of at most 0.3 and a completeness of at most 1.
  analysis_bounded : InLimits (analyze_stream get_object duration_text content_length)
  unfolding analyze_stream
  analysis_bounded =
      let n = min (total_chunks content_length) 100 in
      let (counted, most) = stream-counts n in
      (
        sym counted,
        omega (arith, counted, most),
        omega (arith, counted, most),
        at_most_clear (length (after_chunks n).transcribed_segments) (omega (arith, counted, most)),
        omega arith,
      )
