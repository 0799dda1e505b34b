-- ===== src/I18n/Indonesian/Part4.antt =====
-- web/src/lib/i18n/id.ts, lines 371 to 494.
use ku_crud.Base.{String, [], ◌∷◌}
use ku_crud.Base.Assoc.{Assoc}

abbrev pub indonesian_4 : Assoc String
indonesian_4 =
    ("data.totalRows", "Total {total} baris")
    ∷ ("data.actions", "Aksi")
    ∷ ("data.viewGrid", "Grid")
    ∷ ("data.viewKanban", "Kanban")
    ∷ ("data.viewCalendar", "Kalender")
    ∷ ("data.groupBy", "Kelompokkan…")
    ∷ ("data.saveFilter", "Simpan filter")
    ∷ ("data.saved", "Tersimpan ({count})")
    ∷ ("data.noSavedFilters", "Belum ada filter tersimpan")
    ∷ ("data.loadingSchema", "Memuat skema dinamis tabel...")
    ∷ ("data.defNotFound", "Definisi tabel tidak ditemukan")
    ∷ ("data.backToTables", "Kembali ke Tabel")
    ∷ ("data.key", "Kunci")
    ∷ ("data.totalRecords", "{count} total data")
    ∷ ("data.noGrouping", "Tanpa pengelompokan")
    ∷ ("data.saveFilterPrompt", "Simpan filter aktif sebagai:")
    ∷ ("data.deleteFilterConfirm", "Hapus filter tersimpan \"{name}\"?")
    ∷ ("data.openDefinition", "Buka definisi tabel")
    ∷ ("data.exporting", "Mengekspor...")
    ∷ ("data.exportTitle", "Ekspor hasil saat ini (pencarian & urutan diterapkan) sebagai CSV")
    ∷ ("data.exportFailed", "Ekspor gagal: {msg}")
    ∷ ("data.importTitle", "Impor baris dari file CSV")
    ∷ ("data.driftTitle", "Drift Skema Terdeteksi!")
    ∷ ("data.driftBody", "Skema basis data telah berubah sejak tabel ini dipetakan.")
    ∷ ("data.resync", "Sinkronkan Ulang Definisi")
    ∷ ("data.close", "Tutup")
    ∷ ("data.actionDone", "Selesai.")
    ∷ ("data.rowReferenced", "Baris direferensikan oleh: {refs}")
    ∷ ("data.otherTables", "tabel lain")
    ∷ ("data.deleteFailed", "penghapusan gagal")
    ∷ ("data.selectedCount", "{count} dipilih")
    ∷ ("data.clear", "Bersihkan")
    ∷ ("data.deleting", "Menghapus...")
    ∷ ("data.deleteRows", "Hapus {count} baris")
    ∷ ("data.bulkDeleteConfirm", "Hapus {count} baris terpilih? Ini tidak dapat dibatalkan.")
    ∷ ("data.bulkPartial", "{deleted} dihapus, {failed} gagal: ")
    ∷ ("data.bulkMore", " (+{count} lainnya)")
    ∷ ("data.bulkDeleted", "{count} baris dihapus.")
    ∷ ("data.bulkDeleteFailed", "penghapusan massal gagal")
    ∷ ("data.fetching", "Mengambil data...")
    ∷ ("data.groupedRows", "{count} baris dikelompokkan berdasarkan")
    ∷ ("data.groupTruncated", "— pengelompokan dipotong pada 2.000 baris")
    ∷ ("data.clearGrouping", "Hapus pengelompokan")
    ∷ ("data.prev", "Sebelumnya")
    ∷ ("data.next", "Berikutnya")
    ∷ ("data.selectRow", "Pilih baris")
    ∷ ("data.selectAll", "Pilih semua baris di halaman ini")
    ∷ ("data.copyRow", "Salin / Duplikasi rekaman")
    ∷ ("data.editRow", "Ubah baris")
    ∷ ("data.deleteRow", "Hapus baris")
    ∷ ("data.deleteConfirm", "Hapus rekaman ini secara permanen?")
    ∷ ("data.saveFilterFailed", "gagal menyimpan filter")
    ∷ ("form.insert", "Tambah Data Baru")
    ∷ ("form.edit", "Ubah Data")
    ∷ ("form.save", "Simpan Data")
    ∷ ("form.cancel", "Batal")
    ∷ ("form.insertDesc", "Isi nilai untuk kolom yang dapat diedit")
    ∷ ("form.editDesc", "Mengubah data {keys}")
    ∷ ("form.saving", "Menyimpan...")
    ∷ ("form.readOnly", "(Baca Saja)")
    ∷ ("form.selectOption", "Pilih opsi...")
    ∷ ("form.insertHelpTitle", "Panduan Tambah Data")
    ∷ ("form.editHelpTitle", "Panduan Ubah Data")
    ∷ ("form.insertHelpBody", "Isi nilai untuk field rekaman baru.")
    ∷ (
      "form.pkPolicyInsert",
      "Kebijakan Primary Key: field PK menerima nilai manual atau dapat dibiarkan kosong bila basis data Anda menghasilkan ID otomatis via sequence / default SERIAL.",
    )
    ∷ ("form.editHelpBody", "Ubah nilai atribut untuk rekaman")
    ∷ (
      "form.pkPolicyEdit",
      "Kebijakan Primary Key: field Primary Key ditampilkan sebagai Read-Only pada Mode Edit untuk melindungi identitas rekaman.",
    )
    ∷ (
      "form.notNullTip",
      "Tips Solusi: Kolom ini didefinisikan NOT NULL di basis data tanpa default sequence auto-increment. Buka Definisi Tabel (Langkah 3) dan nyalakan saklar Edit untuk kolom ini agar muncul di formulir, atau tambahkan sequence DEFAULT nextval(...) / SERIAL di basis data Anda.",
    )
    ∷ ("form.requiredMissing", "Kolom wajib belum diisi: {fields}")
    ∷ ("form.invalidJson", "JSON tidak valid: {fields}")
    ∷ ("btn.delete", "Hapus")
    ∷ ("btn.edit", "Ubah")
    ∷ ("btn.loading", "Memuat…")
    ∷ ("help.searchTitle", "Panduan Pencarian")
    ∷ (
      "help.searchBody",
      "Menyaring baris di semua kolom yang dapat dicari memakai pencocokan wildcard SQL LIKE terparameterisasi.",
    )
    ∷ ("help.exportTitle", "Panduan Ekspor CSV")
    ∷ (
      "help.exportBody1",
      "Mengunduh semua rekaman yang cocok (hingga 100.000 baris) dengan pencarian dan urutan aktif diterapkan, sebagai file CSV UTF-8 BOM.",
    )
    ∷ (
      "help.exportBody2",
      "Relasi FK dan Many-to-Many diubah menjadi judul tampilan yang mudah dibaca.",
    )
    ∷ ("help.importTitle", "Panduan Impor CSV")
    ∷ ("help.importBody1", "Unggah data massal dari file CSV (hingga 5MB / 10.000 baris).")
    ∷ (
      "help.importBody2",
      "Termasuk deteksi delimiter (koma/titik koma/tab), pemetaan header, dan pratinjau validasi per baris.",
    )
    ∷ ("fk.editRelated", "Edit di tabel terkait")
    ∷ ("fk.editRelatedTitle", "Edit record relasi di halaman tabelnya")
    ∷ ("fk.pick", "Pilih…")
    ∷ ("fk.noneSelected", "Belum ada relasi dipilih (Kosong)")
    ∷ ("fk.notSet", "— belum diisi —")
    ∷ ("fk.select", "Pilih {label}")
    ∷ ("fk.searchClickHint", "Cari lalu klik baris untuk menghubungkan")
    ∷ ("fk.search", "Cari...")
    ∷ ("fk.noResults", "Tidak ada data ditemukan")
    ∷ ("fk.addNew", "Tambah baru")
    ∷ ("m2m.selectedCount", "{count} dipilih")
    ∷ ("m2m.remove", "Hapus")
    ∷ ("m2m.noneSelected", "Belum ada relasi dipilih")
    ∷ (
      "m2m.multiSelectHint",
      "Pilih banyak; rekaman terpilih ditautkan melalui junction table saat disimpan.",
    )
    ∷ ("m2m.search", "Cari rekaman terkait...")
    ∷ ("m2m.recordsInfo", "{total} data • halaman {page}")
    ∷ ("imp.title", "Impor CSV — {label}")
    ∷ (
      "imp.subtitle",
      "Unggah CSV, petakan kolom ke field tabel, tinjau validasi, lalu sisipkan. Delimiter (koma / titik koma / tab) terdeteksi otomatis. Maks 5 MB / 10.000 baris.",
    )
    ∷ ("imp.back", "Kembali ke Data")
    ∷ ("imp.step1", "1. Unggah File")
    ∷ ("imp.step1Desc", "Pilih file CSV yang akan diimpor")
    ∷ ("imp.parsing", "Mengurai...")
    ∷ ("imp.chooseCsv", "Pilih file CSV")
    ∷ ("imp.delimiter", "delimiter: \"{value}\"")
    ∷ ("imp.step2", "2. Pemetaan Kolom & Pratinjau")
    ∷ (
      "imp.step2Desc",
      "Dipetakan otomatis berdasarkan nama (bisa diubah). Kolom tak terpetakan atau diabaikan akan dilewati.",
    )
    ∷ ("imp.ignore", "— abaikan —")
    ∷ ("imp.revalidating", "Memvalidasi ulang...")
    ∷ ("imp.revalidate", "Validasi ulang dengan pemetaan")
    ∷ ("imp.validCount", "{count} valid")
    ∷ ("imp.invalidCount", "{count} tidak valid")
    ∷ ("imp.rowsCount", "{count} baris")
    ∷ ("imp.status", "Status")
    ∷ (
      "imp.previewNote",
      "Menampilkan 100 baris pertama dari {count}. Validasi dijalankan pada semua baris.",
    )
    ∷ ("imp.row", "Baris {number}:")
    ∷ ("imp.step3", "3. Sisipkan")
    ∷ (
      "imp.step3Desc",
      "Penyisipan di-batch di sisi server; setiap baris yang disisipkan diaudit dan membutuhkan izin create Anda.",
    )
    ∷ ("imp.insertValid", "Sisipkan {count} baris valid")
    ∷ []
