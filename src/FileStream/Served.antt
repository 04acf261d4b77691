-- ===== src/FileStream/Served.antt =====
-- `serve_file`: a file that can be read is delivered as the request asks, or the range is refused.
use rust_template.Base.{
  ℕ, zero, suc, ◌-◌, ◌≤◌, ◌≡◌, refl, sym, ap, ◌∙◌, String, true, false, ◌||◌, Option, none, some,
  List, [], ◌∷◌, ltb, str_eq, eq_iff, length, is_some, unwrap_or, take, drop, arith, length-take,
  length-drop, if◌then◌else◌,
}
use rust_template.Api.{ApiError, Result, ok, err, ◌>>=◌}
use rust_template.Db.Handler.{Ends}
use rust_template.FileStream.{HeaderValue, Range, requested_range}
use rust_template.FileStream.Bounds.{IsWithin, AnswersWithin, IsBadRequest, requested_range_lem}
use rust_template.FileStream.Asked.{AskedBy, Answers, Refuses}
use rust_template.FileStream.Requested.{requested_range-AskedBy}
use rust_template.FileStream.Stream.{
  LocalFile, ObjectByteStream, Headers, insert_header, get_header, Response, Texts, unfold_stream,
  stream_local_path, content_range, header_value, streaming_response, serve_file,
}
use rust_template.FileStream.Delivery.{Reads, Yields, concat-unfold_stream}

get_header-insert_header :
    (name other value : String) (headers : Headers)
    → get_header name (insert_header other value headers)
      ≡ (if str_eq other name then some value else get_header name headers)
unfolding get_header insert_header
get_header-insert_header name other value [] = refl
get_header-insert_header name other value ((n, v) ∷ rest) = ground (
  arith,
  eq_iff other name,
  eq_iff n other,
  eq_iff n name,
  get_header-insert_header name other value rest,
)

take_all : {A : Type 0} (n : ℕ) (xs : List A) → n ≡ length xs → take n xs ≡ xs
take_all zero [] e = refl
take_all zero (x ∷ xs) e = absurd (omega arith)
take_all (suc n) [] e = refl
take_all (suc n) (x ∷ xs) e = ap (λ zs. x ∷ zs) (take_all n xs (omega arith))

-- Numbers and ranges are visible ASCII, which `HeaderValue::from_str` accepts.
pub record AcceptsNumbers (Byte : Type 0) (texts : Texts) : Type 0 where
  pub numbers : (n : ℕ) → texts.accepts (texts.decimal n) ≡ true
  pub ranges :
      (content : ObjectByteStream Byte) → texts.accepts (content_range texts content) ≡ true

module _ {Byte : Type 0} (texts : Texts) (file : LocalFile Byte) where
  -- the whole file without the header, and with it the part that it asks for
  abbrev pub StatusOf : Option HeaderValue → Range → ℕ → Type 0
  StatusOf none range status =
      (status ≡ 200) × (range.start ≡ 0) × (range.end ≡ length file.content)
  StatusOf (some header) range status = (status ≡ 206) × AskedBy header (length file.content) range

  -- only a header that asks for no range of the file is refused
  pub Refused : Option HeaderValue → ApiError → Type 0
  Refused none e = ⊥
  Refused (some header) e = Refuses (AskedBy header (length file.content)) e

  pub record Delivered (header : Option HeaderValue) (r : Response Byte) : Type 0 where
    pub range : Range
    pub fits : range.end ≤ length file.content
    pub status : StatusOf header range r.status
    pub bytes : List Byte
    pub part : bytes ≡ take (range.end - range.start) (drop range.start file.content)
    pub yields : Yields r.body bytes
    pub announced : get_header "content-length" r.headers ≡ some (texts.decimal (length bytes))

  module _ (given : Headers) (accepts : AcceptsNumbers Byte texts)
      (reads : Reads file.content file.read) (opens : file.opens ≡ true)
      (seeks : file.seeks ≡ true) where
    part_of : ℕ → ℕ → List Byte
    part_of start end = take (end - start) (drop start file.content)

    delivered_range :
        (start end : ℕ)
        → start ≤ end
        → end ≤ length file.content
        → Yields (unfold_stream file.read (end - start) start (end - start)) (part_of start end)
          × (length (part_of start end) ≡ end - start)
    unfolding part_of
    delivered_range start end le fits = (
      concat-unfold_stream file.content file.read reads (end - start) start (end - start)
          (omega arith) (omega arith),
      length-take (end - start) (drop start file.content)
          (omega (arith, length-drop start file.content (omega arith))),
    )

    -- the stream of a range that lies in the file
    streamed : Range → ObjectByteStream Byte
    streamed r = record {
      total_size = length file.content;
      range = r;
      stream = unfold_stream file.read (r.end - r.start) r.start (r.end - r.start);
    }

    stream-streamed :
        (o : Option Range)
        → let r = unwrap_or o (record { start = 0; end = length file.content }) in
          r.start ≤ r.end
          → r.end ≤ length file.content
          → stream_local_path (some file) o ≡ ok (streamed r)
    unfolding stream_local_path streamed
    stream-streamed o le fits =
        let r = unwrap_or o (record { start = 0; end = length file.content }) in
        let inside : (ltb r.end r.start || ltb (length file.content) r.end) ≡ false =
          ground arith in
        rw (inside, opens, seeks) refl

    respond-whole : Ends (Delivered none) (Refused none) (
        streaming_response texts
          (streamed (record { start = 0; end = length file.content }))
          given
          false)
    unfolding streaming_response header_value streamed Refused part_of
    respond-whole =
        let (e, n) = delivered_range 0 (length file.content) (omega arith) (omega arith) in
        rw (accepts.numbers (length file.content - 0)) (record {
          range = record { start = 0; end = length file.content };
          fits = omega arith;
          status = (refl, refl, refl);
          bytes = part_of 0 (length file.content);
          part = refl;
          yields = e;
          announced = rw (n, get_header-insert_header) refl;
        })

    lengthed : Range → Headers
    lengthed r =
        insert_header "content-length" (texts.decimal (r.end - r.start))
          (insert_header "accept-ranges" "bytes" given)

    respond-part :
        (header : HeaderValue) (r : Range)
        → IsWithin (length file.content) r
        → AskedBy header (length file.content) r
        → Ends
            (Delivered (some header))
            (Refused (some header))
            (streaming_response texts (streamed r) given true)
    unfolding streaming_response header_value streamed lengthed Refused part_of
    respond-part header r within asked =
        let (e, n) = delivered_range r.start r.end (omega (arith, within.not_empty)) within.fits in
        rw (accepts.numbers (r.end - r.start), accepts.ranges (streamed r))
          (record {
            range = r;
            fits = within.fits;
            status = (refl, asked);
            bytes = part_of r.start r.end;
            part = refl;
            yields = e;
            announced =
                get_header-insert_header "content-length" "content-range"
                  (content_range texts (streamed r)) (lengthed r)
                ∙ get_header-insert_header "content-length" "content-length" _
                    (insert_header "accept-ranges" "bytes" given)
                ∙ ap (λ k. some (texts.decimal k)) (sym n);
          })

    -- If the reads of the file never fail and give a nonempty part of what is left: a file that opens
    -- and seeks is delivered, the whole file without the header `Range`, else a range that the header
    -- asks for. The body yields, without an
    -- error, chunks that are together exactly these bytes, and their number is announced. The only error is
    -- a bad request, of a header that asks for no range of the file.
    pub serve_file_lem :
        (header : Option HeaderValue)
        → Ends (Delivered header) (Refused header) (serve_file texts header file given)
    unfolding serve_file Refused
    serve_file_lem none = rw (stream-streamed none (omega arith) (omega arith)) respond-whole
    serve_file_lem (some header) =
        respond (requested_range (some header) (length file.content))
          (requested_range_lem header (length file.content))
          (requested_range-AskedBy (length file.content) header)
      where
        respond :
            (q : Result (Option Range))
            → Ends (AnswersWithin (length file.content)) IsBadRequest q
            → Ends
                (Answers (AskedBy header (length file.content)))
                (Refuses (AskedBy header (length file.content)))
                q
            → Ends (Delivered (some header)) (Refused (some header)) (
                q >>= λ requested. stream_local_path (some file) requested >>= λ content.
                streaming_response texts content given (is_some requested))
        respond (err e) h a = a
        respond (ok none) h a = absurd h
        respond (ok (some r)) h a =
            rw (stream-streamed (some r) (omega (arith, h.not_empty)) h.fits)
              (respond-part header r h a)
