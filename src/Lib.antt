-- ===== src/Lib.antt =====
-- Models of the core of zoekt, a search engine for source code, with the theorems that make it
-- correct.
--
-- A query is parsed to a tree, which query/query.go simplifies. A shard of the index is a file with
-- the documents and, for each three runes that occur in them, the list of offsets at which they
-- occur, delta coded by index/bits.go. To search a shard, the lists of two ngrams of the pattern
-- are read through the iterators of index/hititer.go, which find the pairs at the right distance;
-- the documents there are searched: a match tree says which document can match next and, cheap
-- tests first, whether it does. A budget bounds what the shards keep. What all shards found is cut
-- to the numbers asked for by index/limit.go, and sent over gRPC in chunks.
--
-- Files, and the code that they model:
--   Prelude, Outcome: shared names, and how a Go function can end: `ok`, `panic` or `diverges`.
--   Query: query/query.go. Query/Syntax has the node types, where a type without a child is an
--     `Atom`; Query/Map is `Map`, Query/Constants `evalConstants` (and Query/Constants/Reduced what
--     it is to give), Query/Flatten `flatten`, Query/Simplify `Simplify`, and Query/Expand
--     `ExpandFileContent`. Query/Meaning says which documents a tree selects, given those that the
--     atoms select. Query/Proto is query/query_proto.go, the conversion of queries to messages and
--     back.
--   Bits: index/bits.go. Bits/Deltas is the coding of offset lists (`toSizedDeltas`,
--     `fromSizedDeltas`, `fromDeltas`), Bits/Sections that of document sections, Bits/RuneOffsets
--     `runeOffsetMap`, and Bits/Ngram the packing of runes. Bits/Uvarint is the varint coding of
--     encoding/binary.
--   Hits: index/hititer.go. Hits has the interface `hitIterator` and its law `IsLawful`, which
--     Hits/InMemory, Hits/Compressed, Hits/Merging and Hits/Distance implement. The last two are
--     sections over iterators of which they know the law only.
--   Limit: index/limit.go and the fields of api.go that it uses. Limit/Lines, Limit/Cut and
--     Limit/Chunks are about the two limiters, Limit/Matches and Limit/Shown about `limitMatches`,
--     and Limit/Batches, Limit/Sequence and Limit/Display about the closure that
--     `NewDisplayTruncator` returns.
--   MatchTree: index/matchtree.go, the iterators of index/matchiter.go, and the loops of `Search`
--     in index/eval.go. MatchTree/Content has candidates and how they are compared with a text,
--     MatchTree/Leaf the leaves, MatchTree/Tree the inner nodes, `evalMatchTree` and the loop over
--     the costs, MatchTree/Docs `nextDoc` and `prepare`, and MatchTree/Search the loop over the
--     documents, with what it passes over and where it stops (and `HasAccess` of
--     internal/tenant/query.go). MatchTree/Expected says what that loop is to find,
--     MatchTree/Counts is about its counts, MatchTree/Found, MatchTree/Visible and
--     MatchTree/Complete about what it finds. MatchTree/Verdict, MatchTree/Value and
--     MatchTree/Facts say what leaves, trees and iterators stand for. MatchTree/NgramDoc is
--     `ngramDocIterator`, over any lawful hit iterator.
--   Budget: internal/searchbudget/budget.go. A goroutine in `Reserve` takes one atomic step after
--     the other, and a schedule says whose turn it is. Budget/Bound is about what is reserved,
--     Budget/Steps about how long it takes.
--   Chunk: grpc/chunk/chunker.go, over any function that sends. Chunk/Packed is about `SendAll`.
--   Lines: the line arithmetic of index/contentprovider.go. Lines/Offsets is about the line of an
--     offset, Lines/Text about `getLines`, and Lines/Chunks about `chunkCandidates`.
--   Btree: index/btree.go. Btree/Flat reads a tree from left to right, Btree/Shape, Btree/Split and
--     Btree/Insert are about insertion, Btree/Layout about what buckets hold, Btree/Frozen about
--     `freeze`, Btree/Find and Btree/Lookup about `find`, and Btree/Index has the tree as a whole.
--   NgramIndex: `newBtreeIndex` of index/read.go, `btreeIndex` of index/btree.go and the file of
--     index/indexfile.go. It is about an index with a tree: one without gives the empty section for
--     all. The files below are about the bytes of numbers (NgramIndex/Encoding), what a file holds
--     (NgramIndex/Stored), reading offsets (NgramIndex/Bucket), the search in a bucket
--     (NgramIndex/Search, NgramIndex/Get), and the index as a whole (NgramIndex/Shard).
--   The Examples files have test runs.
--
-- A method that changes its receiver hands back the changed state. Unsigned numbers are reduced mod
-- 2 ^ 32, 2 ^ 16 or 2 ^ 64 where the code computes with these types. Lengths and limits are ints,
-- and stand for natural numbers.
--
-- Insertion in a b-tree has the height of the tree for fuel.
-- Loops on fuel: `evalConstants` has the depth of the tree, `Simplify` one round more than the tree
-- has nodes, a decoder the number of bytes, since a round takes at least one, and `findNext` 2 ^ 33
-- rounds, since a round drops a hit and there are fewer than 2 ^ 32 on each side; so has the loop
-- of `candidates`. `Search` has one round more than there are documents, `caseFoldingEqualsRunes`
-- the length of the pattern, the loop for words one round more than the length of the text, and
-- `nextFileIndex` one round more than documents for its steps forward, between which the step
-- shrinks no more often than its size. Where `Uvarint` answers that the data ends inside a number,
-- the decoders of the code go round for ever, which is `diverges`.
--
-- Not modelled: file and network handling, goroutines but those that reserve, statistics but those
-- of the compressed iterator, the capacities of slices but in `matchContent`, `getLines` and, for
-- symbols, `limitChunkMatches`, and the parts of the program that no file above is named for: the
-- parser, scoring, the other sections of a shard, the scheduler and the servers. Of the match tree
-- these are left out: how it is built and pruned (`newMatchTree`, `pruneMatchTree`),
-- `andLineMatchTree` and the symbol trees, weights, how the matches of a found document are
-- gathered, of which `Search` is given the number, and the flags and statistics that `Search` sets.
-- The answers of the context and of the budget in a round of `Search` are functions of the document
-- that the round looks at: no document has two. Regular expressions, UTF-8 and Unicode (regexp,
-- unicode/utf8, unicode) and the texts and rune offsets of a shard's documents are arguments of the
-- definitions that use them.
pub mod Prelude
pub mod Outcome
pub mod Query
pub mod Bits
pub mod Hits
pub mod Limit
pub mod MatchTree
pub mod Chunk
pub mod Budget
pub mod Lines
pub mod Btree
pub mod NgramIndex
