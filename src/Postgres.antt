-- ===== src/Postgres.antt =====
-- crates/transferred-postgres: the Postgres source and destination over binary COPY.
pub mod Constants
pub mod Protocol
pub mod PgRange
pub mod Geoarrow
pub mod CopyOut
pub mod PgToArrow
pub mod Append
pub mod Decoder
pub mod ArrowToPg
pub mod Casts
pub mod Write
pub mod Encoder
pub mod Client
pub mod CopyIn
pub mod Tls
pub mod Connection
pub mod Destination
pub mod Source
pub mod RangeShape
pub mod NumericTypmod
pub mod GeoTags
pub mod Intervals
pub mod StagingName
pub mod Landing
pub mod SchemaRoundTrip
pub mod Appending
pub mod RowRoundTrip
pub mod RowAppending
pub mod Chunks
pub mod FailedLoad
pub mod ReadChunks
pub mod Dsn
pub mod Rewritten
pub mod CopiedRows
pub mod Aligned
pub mod BatchRows
pub mod LostCauses
pub mod SampleWires
pub mod SampleRanges
pub mod FaithfulSample
pub mod FaithfulRanges
pub mod SampleTable
pub mod Samples
mod Examples
mod BatchExamples
mod LoadExamples
mod TableExamples
pub mod Committed
pub mod EncoderShape
pub mod Succeeding
pub mod SentRows
pub mod EndToEnd
pub mod RangeRoundTrip
pub mod Verified
pub mod Values
pub mod Windows
pub mod Slots
pub mod ValueReturns
pub mod Carried
pub mod RangeColumns
pub mod ValueRoundTrip
pub mod Lanes
pub mod BatchRoundTrip
pub mod WrittenSlices
pub mod TableRoundTrip
pub mod CopiedThrough
