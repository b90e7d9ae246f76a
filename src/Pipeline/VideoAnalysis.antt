-- ===== src/Pipeline/VideoAnalysis.antt =====
-- The video analysis (src/workers/tasks/video_analysis.py), which reads a video's bytes in chunks and
-- keeps of each chunk only that it could be read: the texts of the segments are placeholders. S3 is
-- the argument of the functions: what `head_object` tells of the file, and whether `get_object` reads
-- a range of bytes. A score counts ten-thousandths, a time whole seconds. The progress is what the
-- loop reports; the estimated duration is only shown, in the text of the parameter `duration_text`,
-- and the beginning of the transcript is left out.
pub mod Bounds
use ai_detention.Prelude.Rounding.{round_div}
use ai_detention.Pipeline.CrossCheck.{ClaimData}
use ai_detention.Prelude.{
  ℕ, List, ◌*◌, max, Bool, ◌/◌, String, ◌+◌, min, [], ◌++◌, ◌∷◌, length, ◌-◌, if◌then◌else◌, false,
  suc, zero, true, ◌==◌,
}
use ai_detention.Errors.{Result, err, ok}
use ai_detention.Prelude.Text.{is_empty}

pub record Segment : Type 0 where
  pub start_time : ℕ
  pub end_time : ℕ

-- What the loop over the chunks carries; `progress` has the reported values, newest first.
pub record Streaming : Type 0 where
  pub transcribed_segments : List Segment
  pub processed_chunks : ℕ
  pub progress : List ℕ

pub record VideoScores : Type 0 where
  pub presentation_clarity : ℕ
  pub content_completeness : ℕ
  pub presentation_quality : ℕ

pub record VideoMetadata : Type 0 where
  pub video_size_bytes : ℕ
  pub segments_transcribed : ℕ
  pub word_count : ℕ
  pub chunks_processed : ℕ
  pub chunks_total : ℕ

pub data VideoResult : Type 0 where
  skipped : VideoResult
  cannot_access : VideoResult
  empty_video : VideoResult
  completed : VideoScores → VideoMetadata → List ClaimData → VideoResult

abbrev pub chunk_size : ℕ
chunk_size = 1024 * 1024

-- 128 KB per second
abbrev pub bytes_per_second : ℕ
bytes_per_second = 128 * 1024

unfoldable pub total_chunks : ℕ → ℕ
total_chunks content_length = max 1 (content_length / chunk_size)

-- The first and the last byte of a chunk.
unfoldable pub chunk_range : ℕ → ℕ → ℕ × ℕ
chunk_range content_length chunk_idx =
    let start_byte = chunk_idx * chunk_size in
    (start_byte, min (start_byte + chunk_size - 1) (content_length - 1))

abbrev pub segment_at : ℕ → Segment
segment_at chunk_idx = record {
  start_time = chunk_idx * chunk_size / bytes_per_second;
  end_time = chunk_idx * chunk_size / bytes_per_second + chunk_size / bytes_per_second;
}

-- One round of the loop: a chunk that cannot be read is left out.
unfoldable pub next_chunk : ℕ → ℕ → Bool → Streaming → Streaming
next_chunk total chunk_idx false st = st
next_chunk total chunk_idx true st =
    let processed = st.processed_chunks + 1 in
    record {
      transcribed_segments = st.transcribed_segments ++ segment_at chunk_idx ∷ [];
      processed_chunks = processed;
      progress = min 80 ((10 * total + processed * 70) / total) ∷ st.progress;
    }

module _ (get_object : ℕ → ℕ → Bool) (duration_text : ℕ → String) where
  abbrev pub reads_chunk : ℕ → ℕ → Bool
  reads_chunk content_length chunk_idx =
      let (start_byte, end_byte) = chunk_range content_length chunk_idx in
      get_object start_byte end_byte

  -- for chunk_idx in range(…): the first `n` chunks
  unfoldable pub stream_chunks : ℕ → ℕ → Streaming
  stream_chunks content_length zero = record {
    transcribed_segments = [];
    processed_chunks = 0;
    progress = [];
  }
  stream_chunks content_length (suc n) =
      next_chunk (total_chunks content_length) n (reads_chunk content_length n)
        (stream_chunks content_length n)

  abbrev pub video_claims : ℕ → List Segment → List ClaimData
  video_claims content_length [] = []
  video_claims content_length (s ∷ segments) =
      record {
        text = duration_text content_length;
        category = "product";
        confidence = 9000;
        source_reference = "Video analysis";
      }
      ∷ []

  -- Each segment's text has three words.
  unfoldable pub analyze_stream : ℕ → VideoResult
  analyze_stream content_length =
      let total = total_chunks content_length in
      let st = stream_chunks content_length (min total 100) in
      let segments = length st.transcribed_segments in
      let words = segments * 3 in
      completed
        (record {
          presentation_clarity = min 10000 (round_div (words * 10000) 1000);
          content_completeness = min 10000 (round_div (segments * 10000) 20);
          presentation_quality = 7000;
        })
        (record {
          video_size_bytes = content_length;
          segments_transcribed = segments;
          word_count = words;
          chunks_processed = st.processed_chunks;
          chunks_total = total;
        })
        (video_claims content_length st.transcribed_segments)

  abbrev pub after_head : Result ℕ → VideoResult
  after_head (err e) = cannot_access
  after_head (ok content_length) =
      if content_length == 0 then empty_video else analyze_stream content_length

  unfoldable pub analyze_video : String → Result ℕ → VideoResult
  analyze_video video_url head = if is_empty video_url then skipped else after_head head
