-- ===== src/Lib.antt =====
-- A verification library for the import, filter and week rules of SSA Consulta Rapida: what an
-- imported row is, how the rows of one number are merged, how times and weeks are read, how the text
-- filters and searches of the list are kept and become queries, how the pages of the list are fetched
-- and kept, and how a list is exported.
--
-- The program imports spreadsheets whose rows carry a number (numero_ssa), a status and dates. A row
-- is normalized and validated (SsaImportPolicy::validateRow), rows of one number are merged by the
-- age of their snapshots (SsaImportPolicy::merge), and the list that results is filtered by text
-- tokens (TextFilterToken) and by year-weeks (SsaTypes, ActivityAnalyticsTypes).
--
-- Files, and the code that each is about:
--   Prelude, Text, Assoc     lists, Boolean tests and ℤ over the native ℕ; a std::string as a list of
--                            byte values (Text), with isspace, isdigit, toupper and tolower of the C
--                            locale; trimWhitespace (src/domain/WhitespaceTrim.h); an unordered_map as
--                            a list of pairs. That no key occurs twice is the hypothesis KeysDistinct
--                            of the theorems that need it; the order of the pairs is arbitrary, as
--                            the order of an unordered_map is.
--   FilterToken              src/domain/TextFilterToken.h and .cpp: a token set is the ordered vector
--                            and the map from a value to its index; a function that changes a set
--                            returns the new one, with the Boolean result where there is one.
--   Number, Calendar         std::from_chars into int (range and minus sign included), %02d and %04d,
--                            and the parts of std::chrono that the code uses: leap years, days of a
--                            month, year_month_day::ok, weekdays, days counted from 0000-01-01.
--   Timestamp                parseFields, parseExactTimestamp, timestampKey and the normalizers of
--                            src/domain/SsaImportPolicy.cpp; Timestamp/Filename is
--                            filenameTimestampAt and filenameTimestamp.
--   IsoWeek                  the year and week functions of src/domain/SsaTypes.h and the week
--                            functions of src/domain/ActivityAnalyticsTypes.cpp.
--   ImportRow                the field predicates, snapshotKey, normalizeNumber and validateRow of
--                            src/domain/SsaImportPolicy.cpp.
--   Merge                    SsaImportPolicy::merge: merge_action is the body of its loop, merge_loop
--                            the loop, finish_merge its end; differsInPersistedValues.
--   Resolver                 src/infra/import/SsaImportConflictResolver.cpp: the state of its loop is
--                            a record and a row is a step; rowValue of src/infra/SsaImportData.h.
--   Csv                      appendCsvValue, buildCsvRow and csvHeader of
--                            src/infra/export/CsvExportPort.cpp.
--   Catalog                  src/domain/ColumnCatalog.cpp: the table of the columns (Catalog/Columns)
--                            and the functions that find, check and order columns.
--   Search                   src/query/SearchParser.cpp: the terms of the search box.
--   DisplayOrder             src/domain/ColumnValuePriorityPolicy.h and .cpp: the order in which the
--                            values of a column are displayed.
--   Deviation, Deadline      normalizeDeviationCount of src/domain/SsaImportPolicy.cpp; the cohorts and
--                            the deadline classes of src/domain/ActivityAnalyticsTypes.cpp.
--   Page, Relation           clampPageSize and pageCount of src/domain/SsaTypes.h; the relations that a
--                            record names, src/domain/SsaRelationGraph.cpp.
--   Sql                      src/query: SqlQueryText, TextFilterSqlCompiler (Sql/TextFilter, with
--                            src/domain/SafePattern.h), AdvancedFilterSqlCompiler (Sql/Advanced),
--                            SqlPredicateBuilder and SqlQueryBuilder (Sql/Query, Sql/Distinct). A
--                            stream with its bindings and its flag is a record, a compiler gives what it appends, and
--                            a std::invalid_argument is none. Marks, Balance, Pieces, Parameters
--                            and Values are about placeholders, Shape and Words about the text, Page about
--                            offsets. SQLite's LIKE is a parameter with its documented laws (Sql/Like).
--   Sheet                    src/infra/import/SsaSpreadsheetHeaderCatalog.cpp (Sheet/Aliases, Headers) and
--                            SsaSpreadsheetMapper.cpp: headerRowIndex and columnMapFromHeader
--                            (Sheet/Columns) and map (Sheet/Rows). What the code asks of QString is
--                            the parameter Qt, with no hypothesis; a std::logic_error is none.
--                            Sheet/Mapped joins the rows that map gives to the Resolver; Sheet/Kept
--                            is about which rows these are, Sheet/Reading about their fields.
--   PageQuery                src/presentation/PageQueryCoordinator.cpp: the coordinator is a record,
--                            its signals a list; PageQuery/Cache, Steps and Relation are its
--                            functions, run to cachePage by name, and the body of a worker. A
--                            stop source, a cancel token and a watcher are set together and are one
--                            flag. Reachable is the relation of the coordinators that calls and the
--                            ends of workers lead to in any order. PageQuery/Request is operator== of
--                            requests (src/domain/SsaTypes.h).
--   Preferences              src/presentation/FilterPreferencesNormalizer.cpp on the snapshots of
--                            src/ports/IUserPreferencesStore.h.
-- The tests and the concrete runs of each part stand in its Samples module.
--
-- Bounds and fuel: every loop of the code runs over a text or a list and is structural recursion; no
-- function takes fuel. int is 32 bits: a number that from_chars cannot store is refused, as the code
-- does. A signed int of a parsed field may be negative, so that a timestamp holds ℤ; a year of the
-- filters is never negative where the code reads it, and is ℕ; in the SQL compilers it is an integer.
-- A decimal text takes 20 digits, which hold every number of 64 bits; offsets, generations and the
-- numbers of operations wrap at 2 ^ 64 as the code's do.
--
-- Not modelled: the spreadsheet readers (ZIP, XML, Qt files) and the
-- consolidation of several files, the SQLite store, the SQL of the
-- analytics, JSON preferences, the other Qt models and the window, and the display helpers of
-- src/domain/ActivityAnalyticsTypes.cpp (tags, labels, trends in floating point).
pub mod Prelude
pub mod Text
pub mod Assoc
pub mod FilterToken
pub mod Number
pub mod Calendar
pub mod Timestamp
pub mod IsoWeek
pub mod ImportRow
pub mod Merge
pub mod Resolver
pub mod Csv
pub mod Search
pub mod DisplayOrder
pub mod Page
pub mod Catalog
pub mod Deviation
pub mod Deadline
pub mod Sql
pub mod PageQuery
pub mod Preferences
pub mod Relation
pub mod Sheet
